-- ===== src/Fabric/Wal/Checkpoint.antt =====
-- crates/wll-fabric/src/wal.rs: a checkpoint between two runs of appends.
use wll.Base.{
  ◌≡◌, refl, sym, ap, ◌∙◌, false, List, [], ◌∷◌, ◌++◌, inl, inr, length, drop, ltb, leb, arith,
  append-nil, length-append, Bool-cases,
}
use wll.Base.Result.{ok}
use wll.Fabric.Wal.{
  Bytes, WalCodec, WriteAheadLog, delete_on_checkpoint, new, record_of, append, recover,
  recover_from, checkpoint, truncate_through, truncate, retained,
}
use wll.Fabric.Wal.Recovery.{
  AllStored, log, append_all, append_all-file, recover_from-log, length-record_of, drop-append,
}

length-nil : {A : Type 0} (xs : List A) → length xs ≡ 0 → [] ≡ xs
length-nil [] e = refl
length-nil (x ∷ xs) e = absurd (omega (arith, e))

module _ {Event : Type 0} (codec : WalCodec Event) where
  append-offset :
      (e : Event) (payload : Bytes) (w : WriteAheadLog)
      → codec.serialize e ≡ ok payload
      → w.offset ≡ length w.file
      → (append codec e w).1.offset ≡ length (append codec e w).1.file
  unfolding append
  append-offset e payload w h same = rw h (
      omega (
        arith,
        same,
        length-append w.file (record_of codec payload),
        length-record_of codec payload,
      ))

  append_all-offset :
      (es : List Event) (s : AllStored codec es) (w : WriteAheadLog)
      → w.offset ≡ length w.file
      → (append_all codec es w).offset ≡ length (append_all codec es w).file
  unfolding append_all
  append_all-offset [] s w same = same
  append_all-offset (e ∷ es) s w same =
      append_all-offset es s.1 (append codec e w).1 (append-offset e s.0.0 w s.0.1.written same)

  append_all-retention :
      (es : List Event) (s : AllStored codec es) (w : WriteAheadLog)
      → (append_all codec es w).retention ≡ w.retention
  unfolding append_all append
  append_all-retention [] s w = refl
  append_all-retention (e ∷ es) s w =
      append_all-retention es s.1 (append codec e w).1 ∙ rw (append, s.0.1.written) refl

  recover-log :
      (es : List Event) (s : AllStored codec es) (w : WriteAheadLog)
      → w.file ≡ log codec es s
      → recover codec w ≡ es
  unfolding recover
  recover-log es s w e = rw e (
      ap (recover_from codec (length (log codec es s))) (sym (append-nil (log codec es s)))
      ∙ recover_from-log codec es s (length (log codec es s)) 0 [] (omega arith) (omega arith)
          (omega arith))

  recover-truncate_through :
      (es : List Event) (s : AllStored codec es) (front : Bytes) (w : WriteAheadLog)
      → w.file ≡ front ++ log codec es s
      → recover codec (truncate_through (length front) w) ≡ es
  unfolding truncate_through truncate
  recover-truncate_through es s front w e = elim (Bool-cases (leb (length w.file) (length front))) [
    | inr more ↦
        rw more
          (recover-log es s _ (ap (drop (length front)) e ∙ drop-append front (log codec es s)))
    | inl all ↦ rw all (
        recover-log es s _ (
          length-nil (log codec es s)
            (ground (arith, ap length e, length-append front (log codec es s), all))))
  ]

  -- On a log that deletes at checkpoints, a checkpoint at the offset that the log had between two runs
  -- of appends succeeds, and recovery then reads exactly the events of the second run: the record
  -- that starts at that offset is kept.
  pub checkpoint-recover :
      (es fs : List Event)
      → AllStored codec es
      → AllStored codec fs
      → (out : WriteAheadLog) × (checkpoint
            (append_all codec es (new delete_on_checkpoint)).offset
            (append_all codec fs (append_all codec es (new delete_on_checkpoint)))
          ≡ (ok tt, out))
        × (recover codec out ≡ fs)
  unfolding checkpoint retained
  checkpoint-recover es fs s t =
      let start : WriteAheadLog = append_all codec es (new delete_on_checkpoint) in
      let all : WriteAheadLog = append_all codec fs start in
      let at : start.offset ≡ length start.file =
        append_all-offset es s (new delete_on_checkpoint) refl in
      let files : all.file ≡ start.file ++ log codec fs t = append_all-file codec fs t start in
      let within : ltb all.offset start.offset ≡ false = ground (
        arith,
        at,
        append_all-offset fs t start at,
        ap length files,
        length-append start.file (log codec fs t),
      ) in
      let kept : all.retention ≡ delete_on_checkpoint =
        append_all-retention fs t start ∙ append_all-retention es s (new delete_on_checkpoint) in
      (
        truncate_through start.offset all,
        rw within (ap (λ mode. (ok tt, retained mode start.offset all)) kept),
        ap (λ n. recover codec (truncate_through n all)) at
            ∙ recover-truncate_through fs t start.file all files,
      )
