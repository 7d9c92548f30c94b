-- ===== src/Store/Memory/Addressed.antt =====
-- crates/wll-store/src/memory.rs: an object stands under its own id, and stays as it is.
use wll.Base.{
  ap, ℕ, ◌≡◌, ◌≢◌, refl, sym, ◌∙◌, ◌⊎◌, inl, inr, true, false, List, [], ◌∷◌, none, some, ◌==◌,
  eq_nat, if◌then◌else◌, arith, Bool-cases, Option-cases, nat_eq_iff,
}
use mathlib.Core.Option.{some-injective}
use wll.Base.Maps
use wll.Base.Maps.{HashMap, contains_key, contains_key-get, get-insert, get-remove}
use wll.Base.Result.{ok, err}
use wll.Types.Commitment.{Hash, ObjectId, is_null, null}
use wll.Crypto.Hasher.{hash, commit_hasher}
use wll.Store.Object
use wll.Store.Object.{
  StoredObject, StoreError, null_object_id, compute_id, snapshot, pack, hasher_of,
}
use wll.Store.Memory.{InMemoryObjectStore, new, read, or_insert, write, delete, clear}

pub data Call : Type 0 where
  put : StoredObject → Call
  drop : ObjectId → Call
  wipe : Call

get-or_insert :
    (id k : ObjectId) (o : StoredObject) (m : HashMap ObjectId StoredObject)
    → Maps.get k (or_insert id o m) ≡ (
        if id == k then some (elim (Maps.get id m) [ none ↦ o | some old ↦ old ]) else Maps.get k m)
unfolding or_insert
get-or_insert id k o m = elim (Bool-cases (id == k)) [
  | inl e ↦ ground (
    arith,
    contains_key-get id m,
    get-insert id k o m,
    ap (λ (j : ObjectId). Maps.get j m) ((nat_eq_iff id k).0 e),
  )
  | inr e ↦ ground (arith, contains_key-get id m, get-insert id k o m)
]

module _ (blake3 : List ℕ → Hash) where
  -- Every object stands under the id that its kind and content give, which is not null.
  pub record IsAddressed (s : InMemoryObjectStore) : Type 0 where
    pub own : (id : ObjectId) (o : StoredObject) → read id s ≡ some o → compute_id blake3 o ≡ id
    pub apart : (id : ObjectId) (o : StoredObject) → read id s ≡ some o → is_null id ≡ false

  unfoldable pub perform : Call → InMemoryObjectStore → InMemoryObjectStore
  perform (put o) s = (write blake3 o s).1
  perform (drop id) s = (delete id s).1
  perform wipe s = clear s

  unfoldable pub run : List Call → InMemoryObjectStore → InMemoryObjectStore
  unfolding perform
  run [] s = s
  run (c ∷ cs) s = run cs (perform c s)

  -- What a read finds under the id of a written object.
  abbrev pub kept : StoredObject → InMemoryObjectStore → StoredObject
  kept o s = elim (read (compute_id blake3 o) s) [ none ↦ o | some old ↦ old ]

  -- An object whose id is null is refused and the store stays as it was. Any other is written: the
  -- answer is its id; a read of that id finds the object that was there before, or else the new one;
  -- and a read of any other id finds what it found before.
  pub write_lem :
      (o : StoredObject) (s : InMemoryObjectStore) (id : ObjectId)
      → ((compute_id blake3 o ≡ null) × (write blake3 o s ≡ (err null_object_id, s)))
        ⊎ ((compute_id blake3 o ≢ null)
            × ((write blake3 o s).0 ≡ ok (compute_id blake3 o))
            × (read id (write blake3 o s).1
                ≡ (if compute_id blake3 o == id then some (kept o s) else read id s)))
  unfolding write
  write_lem o s id = elim (Bool-cases (is_null (compute_id blake3 o))) [
    | inl e ↦ inl ((nat_eq_iff (compute_id blake3 o) null).0 e, rw e refl)
    | inr e ↦ inr (
      λ z. ground (arith, (nat_eq_iff (compute_id blake3 o) null).1 z, e),
      rw e refl,
      rw e (get-or_insert (compute_id blake3 o) id o s.objects),
    )
  ]

  write-IsAddressed :
      (o : StoredObject) (s : InMemoryObjectStore)
      → IsAddressed s
      → IsAddressed (write blake3 o s).1
  write-IsAddressed o s a = record {
    own = λ id x h. elim (write_lem o s id) [
      | inl bad ↦ a.own id x (rw bad.1 at h)
      | inr good ↦ elim (Bool-cases (compute_id blake3 o == id)) [
        | inr other ↦ a.own id x (ground (arith, good.2, h, other))
        | inl same ↦
            let at = (nat_eq_iff (compute_id blake3 o) id).0 same in
            elim (Option-cases (read (compute_id blake3 o) s)) [
              | inl free ↦
                  let e : some o ≡ some x = ground (arith, good.2, h, same, free) in
                  ap (compute_id blake3) (sym (some-injective o x e)) ∙ at
              | inr (old, there) ↦
                  let e : some old ≡ some x = ground (arith, good.2, h, same, there) in
                  a.own id x (rw (sym at) (there ∙ e))
            ]
      ]
    ];
    apart = λ id x h. elim (write_lem o s id) [
      | inl bad ↦ a.apart id x (rw bad.1 at h)
      | inr good ↦ elim (Bool-cases (compute_id blake3 o == id)) [
        | inr other ↦ a.apart id x (ground (arith, good.2, h, other))
        | inl same ↦
            ground (arith, nat_eq_iff (compute_id blake3 o) id, good.0, nat_eq_iff id null, same)
      ]
    ];
  }

  delete-IsAddressed :
      (k : ObjectId) (s : InMemoryObjectStore) → IsAddressed s → IsAddressed (delete k s).1
  unfolding delete
  delete-IsAddressed k s a = record {
    own = λ id x h. a.own id x (ground (arith, get-remove k id s.objects, h));
    apart = λ id x h. a.apart id x (ground (arith, get-remove k id s.objects, h));
  }

  empty-IsAddressed : IsAddressed new
  unfolding Maps.get
  empty-IsAddressed = record { own = λ id o h. ground arith; apart = λ id o h. ground arith }

  run-IsAddressed :
      (cs : List Call) (s : InMemoryObjectStore) → IsAddressed s → IsAddressed (run cs s)
  unfolding run perform
  run-IsAddressed [] s a = a
  run-IsAddressed (put o ∷ cs) s a =
      run-IsAddressed cs (write blake3 o s).1 (write-IsAddressed o s a)
  run-IsAddressed (drop k ∷ cs) s a = run-IsAddressed cs (delete k s).1 (delete-IsAddressed k s a)
  run-IsAddressed (wipe ∷ cs) s a = run-IsAddressed cs new empty-IsAddressed

  -- The call neither deletes the id nor clears the store.
  abbrev pub Spares : ObjectId → Call → Type 0
  Spares id (put o) = Unit {0}
  Spares id (drop k) = k ≢ id
  Spares id wipe = ⊥

  abbrev pub AllSpare : ObjectId → List Call → Type 0
  AllSpare id [] = Unit {0}
  AllSpare id (c ∷ cs) = Spares id c × AllSpare id cs

  read-run :
      (id : ObjectId) (o : StoredObject) (cs : List Call) (s : InMemoryObjectStore)
      → AllSpare id cs
      → read id s ≡ some o
      → read id (run cs s) ≡ some o
  unfolding run perform delete
  read-run id o [] s k h = h
  read-run id o (put x ∷ cs) s k h =
      read-run id o cs (write blake3 x s).1 k.1 (elim (write_lem x s id) [
        | inl bad ↦ rw bad.1 h
        | inr good ↦ elim (Bool-cases (compute_id blake3 x == id)) [
          | inr other ↦ ground (arith, good.2, h, other)
          | inl same ↦
              let there : read (compute_id blake3 x) s ≡ some o =
                rw ((nat_eq_iff (compute_id blake3 x) id).0 same) h in
              ground (arith, good.2, same, there)
        ]
      ])
  read-run id o (drop j ∷ cs) s k h =
      read-run id o cs (delete j s).1 k.1
        (ground (arith, get-remove j id s.objects, k.0, nat_eq_iff j id, h))
  read-run id o (wipe ∷ cs) s k h = absurd k.0

  -- After any calls on an empty store, an object that a read finds has the id it was read by, and the
  -- same read finds the same object after any further calls that neither delete that id nor clear the
  -- store.
  pub read_is_immutable :
      (before after : List Call) (id : ObjectId) (o : StoredObject)
      → read id (run before new) ≡ some o
      → AllSpare id after
      → (compute_id blake3 o ≡ id) × (read id (run after (run before new)) ≡ some o)
  read_is_immutable before after id o h k = (
    (run-IsAddressed before new empty-IsAddressed).own id o h,
    read-run id o after (run before new) k h,
  )

  -- A snapshot and a pack with the same content have the same id. If it is not null and was free, a
  -- pack written after the snapshot is reported as written, and a read of its id gives the snapshot.
  pub write-pack-snapshot :
      (content : List ℕ) (s : InMemoryObjectStore)
      → hash blake3 commit_hasher content ≢ null
      → read (hash blake3 commit_hasher content) s ≡ none
      → ((write blake3 (Object.new pack content) (write blake3 (Object.new snapshot content) s).1).0
          ≡ ok (hash blake3 commit_hasher content))
        × (read
              (hash blake3 commit_hasher content)
              (write blake3
                (Object.new pack content)
                (write blake3 (Object.new snapshot content) s).1).1
            ≡ some (Object.new snapshot content))
  unfolding compute_id hasher_of
  write-pack-snapshot content s apart free =
      let id = hash blake3 commit_hasher content in
      let first = write_lem (Object.new snapshot content) s id in
      let second =
        write_lem (Object.new pack content) (write blake3 (Object.new snapshot content) s).1 id in
      let same : (id == id) ≡ true = (nat_eq_iff id id).1 refl in
      elim first [
        | inl bad ↦ absurd (apart bad.0)
        | inr one ↦ elim second [
          | inl bad ↦ absurd (apart bad.0)
          | inr two ↦ (two.1, ground (arith, one.2, two.2, same, free))
        ]
      ]
