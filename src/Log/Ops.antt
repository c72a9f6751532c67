-- ===== src/Log/Ops.antt =====
-- kernel/log.c: `begin_op`, `end_op` and `log_write`, each part between `acquire` and the next
-- `release` or `sleep` as one function of `log`.
use operating_systems.Prelude.{
  ℕ, suc, ◌+◌, ◌-◌, ◌*◌, ◌≤◌, ◌<◌, ◌≡◌, refl, inl, inr, Bool, true, false, ◌&&◌, ◌||◌, not, Option,
  none, some, List, [], ◌∷◌, ◌++◌, arith, ltb, leb, ◌==◌, if◌then◌else◌, Bool-cases, length, set,
  length-append, update, has,
}
use operating_systems.Log.{Log, logsize, maxopblocks, bpin, commit}

-- One pass of the loop of `begin_op`; `none`: the caller sleeps, and tries again when woken.
unfoldable pub begin_op : Log → Option Log
begin_op s =
    if s.committing
    then none
    else if ltb logsize (length s.lh + (s.outstanding + 1) * maxopblocks)
    then none
    else some (record s { outstanding = s.outstanding + 1 })

-- `end_op` up to its first `release`. `underflow`: the count was 0 and goes below
-- it, where the code goes on with -1; the model stops there.
pub data Ended : Type 0 where
  underflow panicked : Ended
  ended : (do_commit : Bool) → Log → Ended

unfoldable pub end_op : Log → Ended
end_op s =
    let left = s.outstanding - 1 in
    if s.outstanding == 0
    then underflow
    else if s.committing
    then panicked
    else if left == 0
    then ended true (record s { outstanding = left; committing = true })
    else ended false (record s { outstanding = left })

-- The rest of `end_op`, when `do_commit` is set.
unfoldable pub end_op_commit : ℕ → Log → Log
end_op_commit start s = record (commit start s) { committing = false }

pub data Written : Type 0 where
  too_big outside : Written
  written : Log → Written

-- The loop of `log_write`: the index of `b` in the list, or the length of the list.
index : List ℕ → ℕ → ℕ
index [] b = 0
index (x ∷ xs) b = if x == b then 0 else suc (index xs b)

-- `log.lh.block[i] = b->blockno; if (i == log.lh.n) { bpin(b); log.lh.n++; }`
unfoldable pub log_write : ℕ → ℕ → Log → Written
unfolding index bpin
log_write size b s =
    let i = index s.lh b in
    let n = length s.lh in
    if leb logsize n || leb (size - 1) n
    then too_big
    else if ltb s.outstanding 1
    then outside
    else if i == n
    then written (record (bpin b s) { lh = s.lh ++ (b ∷ []) })
    else written (record s { lh = set s.lh i b })

index-has : (xs : List ℕ) (b : ℕ) → (index xs b == length xs) ≡ not (has xs b)
unfolding index
index-has [] b = refl
index-has (x ∷ xs) b = ground (arith, index-has xs b)

set-index : (xs : List ℕ) (b : ℕ) → has xs b ≡ true → set xs (index xs b) b ≡ xs
unfolding index
set-index [] b h = refl
set-index (x ∷ xs) b h = ground (arith, set-index xs b)

-- No block twice.
abbrev pub Distinct : List ℕ → Type 0
Distinct [] = Unit
Distinct (x ∷ xs) = (has xs x ≡ false) × Distinct xs

has-append : (xs ys : List ℕ) (b : ℕ) → has (xs ++ ys) b ≡ (has xs b || has ys b)
has-append [] ys b = refl
has-append (x ∷ xs) ys b = ground (arith, has-append xs ys b)

Distinct-append : (xs : List ℕ) (b : ℕ) → Distinct xs → has xs b ≡ false → Distinct (xs ++ (b ∷ []))
Distinct-append [] b d h = (refl, tt)
Distinct-append (x ∷ xs) b d h =
    (ground (arith, has-append xs (b ∷ []) x), Distinct-append xs b d.1 (ground arith))

-- `log_write` inside a transaction that the log has room for records the block: once, whether or not
-- it was recorded before, pinned when it is recorded, with all other blocks and pins as they were.
pub log_write_lem :
    (size b : ℕ) (s : Log)
    → length s.lh + 1 < size
    → length s.lh < logsize
    → 0 < s.outstanding
    → Distinct s.lh
    → (t : Log) × (log_write size b s ≡ written t)
      × Distinct t.lh
      × ((x : ℕ) → has t.lh x ≡ ((x == b) || has s.lh x))
      × ((x : ℕ) → t.pins x ≡ (if (x == b) && not (has s.lh b) then s.pins x + 1 else s.pins x))
      × (length t.lh ≡ (if has s.lh b then length s.lh else length s.lh + 1))
unfolding log_write
log_write_lem size b s room fits inside d = elim (Bool-cases (has s.lh b)) [
  | inl old ↦ (
    s,
    ground (arith, index-has s.lh b, set-index s.lh b),
    d,
    λ x. ground arith,
    λ x. ground arith,
    ground arith,
  )
  | inr new ↦ (
    record s { lh = s.lh ++ (b ∷ []); pins = update s.pins b (s.pins b + 1) },
    ground (arith, index-has s.lh b),
    Distinct-append s.lh b d new,
    λ x. ground (arith, has-append s.lh (b ∷ []) x),
    λ x. ground arith,
    ground (arith, length-append s.lh (b ∷ [])),
  )
]

-- What `log_write` does when it returns.
pub log_write_inv :
    (size b : ℕ) (s : Log) {t : Log}
    → log_write size b s ≡ written t
    → (t.outstanding ≡ s.outstanding)
      × (t.committing ≡ s.committing)
      × (t.lh ≡ (if has s.lh b then s.lh else s.lh ++ (b ∷ [])))
      × (0 < s.outstanding)
unfolding log_write
log_write_inv size b s e = elim (Bool-cases (has s.lh b)) [
  | inl old ↦ ground (arith, index-has s.lh b, set-index s.lh b)
  | inr new ↦ ground (arith, index-has s.lh b)
]

pub Distinct-lh :
    (xs : List ℕ) (b : ℕ) → Distinct xs → Distinct (if has xs b then xs else xs ++ (b ∷ []))
Distinct-lh xs b d = elim (Bool-cases (has xs b)) [
  | inl old ↦ rw old d
  | inr new ↦ rw new (Distinct-append xs b d new)
]

pub begin_op_inv :
    (s : Log) {t : Log}
    → begin_op s ≡ some t
    → (length s.lh + (s.outstanding + 1) * maxopblocks ≤ logsize)
      × (s.committing ≡ false)
      × (t ≡ record s { outstanding = s.outstanding + 1 })
unfolding begin_op
begin_op_inv s e = elim (Bool-cases s.committing) [
  | inl busy ↦ ground (arith)
  | inr idle ↦ elim (Bool-cases (ltb logsize (length s.lh + (s.outstanding + 1) * maxopblocks))) [
    | inl full ↦ ground arith
    | inr fits ↦ (ground arith, idle, ground arith)
  ]
]

pub end_op_inv :
    (s : Log) {c : Bool} {t : Log}
    → end_op s ≡ ended c t
    → (0 < s.outstanding)
      × (t.outstanding + 1 ≡ s.outstanding)
      × (t.lh ≡ s.lh)
      × (t.committing ≡ true → t.outstanding ≡ 0)
      × (s.committing ≡ false)
unfolding end_op
end_op_inv s e = ground arith
