-- ===== src/Log/Tests.antt =====
-- Runs of the log on a small disk, and the theorems at them.
use operating_systems.Prelude.{
  ℕ, ◌≡◌, refl, ◌⊎◌, inr, true, false, [], ◌∷◌, arith, ◌==◌, if◌then◌else◌, update,
}
use operating_systems.Log.{entries, Disk, Log, commit, recover_from_log, boot}
use operating_systems.Log.Spec.{header, IsHome, recovered}
use operating_systems.Log.Recover.{Always, recover-recovered}
use operating_systems.Log.Commit.{IsReady, Restores, old_view, new_view, commit_atomic, commit_done}
use operating_systems.Log.Ops.{ended, end_op}
use operating_systems.Log.Reserve.{Calls}

-- Block `b` is full of the number `b`; the log area is 2 to 33, and its header is empty.
abbrev disk : Disk
disk b w = if b == 2 then 0 else b

-- Block 40 has been changed in memory, inside a transaction.
abbrev changed : Log
changed = record {
  disk = disk;
  cache = update disk 40 (λ _. 7);
  past = [];
  pins = update (λ _. 0) 40 1;
  outstanding = 0;
  committing = true;
  lh = 40 ∷ [];
}

-- The log area has been written, and the header names one block, whose copy is block 3.
abbrev logged : Disk
logged = update disk 2 (λ w. if w == 0 then 1 else 40)

abbrev one_call : Log
one_call = record changed { outstanding = 1; committing = false }

commit_writes : (commit 2 changed).disk 40 5 ≡ 7
unfolding commit
commit_writes = refl

recover_reads : (recover_from_log 2 (boot logged)).disk 40 5 ≡ 3
unfolding recover_from_log entries
recover_reads = refl

end_op_decides : end_op one_call ≡ ended true (record changed { outstanding = 0 })
unfolding end_op
end_op_decides = refl

changed-IsReady : IsReady 2 32 changed
changed-IsReady = record {
  empty = unfold entries in refl;
  sound = ((inr (omega arith), tt), omega arith);
  clean = λ i h. ground arith;
  fresh = refl;
}

commit_atomic_example :
    Always
      (λ D. Restores 2 32 D (old_view 2 32 changed) ⊎ Restores 2 32 D (new_view 2 32 changed))
      (commit 2 changed)
commit_atomic_example = commit_atomic 2 32 changed changed-IsReady

commit_done_example :
    ((b : ℕ) → IsHome 2 32 b → (commit 2 changed).disk b ≡ new_view 2 32 changed b)
    × ((commit 2 changed).lh ≡ [])
    × (header 2 (commit 2 changed).disk ≡ [])
commit_done_example = commit_done 2 32 changed changed-IsReady

recover-recovered_example :
    Always
      (λ E. (b : ℕ) → IsHome 2 32 b → recovered 2 E b ≡ recovered 2 logged b)
      (recover_from_log 2 (boot logged))
    × ((b : ℕ) → IsHome 2 32 b → (recover_from_log 2 (boot logged)).disk b ≡ recovered 2 logged b)
unfolding entries
recover-recovered_example =
    recover-recovered 2 32 logged ((inr (omega arith), tt), omega arith) (omega arith)

abbrev nobody : Calls
nobody = record { log = boot disk; budgets = [] }

abbrev one : Calls
one = record { log = record (boot disk) { outstanding = 1 }; budgets = 10 ∷ [] }
