-- ===== src/Log/Reserve.antt =====
-- File system calls that run side by side between `begin_op` and `end_op`: what they reserve in the
-- log, and that it is enough.
use operating_systems.Prelude.{
  ℕ, zero, suc, ◌+◌, ◌*◌, ◌≤◌, ◌≡◌, refl, sym, ap, ◌∙◌, ◌≢◌, inl, inr, Bool, true, false, some,
  List, [], ◌∷◌, ◌++◌, arith, ltb, Bool-cases, length, get_elem?, set, length-append, length-set,
  All, has,
}
use operating_systems.Log.{
  Log, logsize, maxopblocks, bwrite, set_data, bunpin, write_head, write_loop, install_loop, commit,
}
use operating_systems.Log.Ops.{
  begin_op, end_op, ended, end_op_commit, written, log_write, log_write_inv, begin_op_inv,
  end_op_inv, Distinct, Distinct-lh,
}

-- The state of the log that the calls share, and for each call that is between `begin_op` and
-- `end_op` the number of blocks that it may still add.
pub record Calls : Type 0 where
  pub log : Log
  pub budgets : List ℕ

pub remove : List ℕ → ℕ → List ℕ
remove [] i = []
remove (x ∷ xs) zero = xs
remove (x ∷ xs) (suc i) = x ∷ remove xs i

unfoldable pub sum : List ℕ → ℕ
sum [] = 0
sum (x ∷ xs) = x + sum xs

-- What a call does is its own business, but that it adds at most `MAXOPBLOCKS` blocks.
pub data Step (start size : ℕ) (s : Calls) : Calls → Type 0 where
  begins :
      {l : Log}
      → begin_op s.log ≡ some l
      → Step start size s (record { log = l; budgets = maxopblocks ∷ s.budgets })
  adds :
      {l : Log} (i k b : ℕ)
      → get_elem? s.budgets i ≡ some (suc k)
      → has s.log.lh b ≡ false
      → log_write size b s.log ≡ written l
      → Step start size s (record { log = l; budgets = set s.budgets i k })
  absorbs :
      {l : Log} (i k b : ℕ)
      → get_elem? s.budgets i ≡ some k
      → has s.log.lh b ≡ true
      → log_write size b s.log ≡ written l
      → Step start size s (record { log = l; budgets = s.budgets })
  ends :
      {l : Log} (c : Bool) (i k : ℕ)
      → get_elem? s.budgets i ≡ some k
      → end_op s.log ≡ ended c l
      → Step start size s (record { log = l; budgets = remove s.budgets i })
  commits :
      s.log.committing ≡ true
      → Step start size s (record { log = end_op_commit start s.log; budgets = s.budgets })

pub data Reach (start size : ℕ) (s : Calls) : Calls → Type 0 where
  here : Reach start size s s
  later : {t u : Calls} → Reach start size s t → Step start size t u → Reach start size s u

pub record Reserved (s : Calls) : Type 0 where
  pub room : length s.log.lh + sum s.budgets ≤ logsize
  pub within : All (λ k. k ≤ maxopblocks) s.budgets
  pub counted : s.log.outstanding ≡ length s.budgets
  pub alone : s.log.committing ≡ true → s.budgets ≡ []
  pub distinct : Distinct s.log.lh

-- What `commit` leaves of the counters.
Same : Log → Log → Type 0
Same s t = (t.outstanding ≡ s.outstanding) × (t.lh ≡ s.lh)

write_loop-Same : (start t : ℕ) (bs : List ℕ) (s : Log) → Same s (write_loop start t bs s)
unfolding write_loop Same
write_loop-Same start t [] s = (refl, refl)
write_loop-Same start t (b ∷ bs) s =
    write_loop-Same start (t + 1) bs
      (bwrite (start + t + 1) (set_data (start + t + 1) (s.cache b) s))

install_loop-Same :
    (start : ℕ) (r : Bool) (t : ℕ) (bs : List ℕ) (s : Log) → Same s (install_loop start r t bs s)
unfolding install_loop Same
install_loop-Same start r t [] s = (refl, refl)
install_loop-Same start true t (b ∷ bs) s =
    install_loop-Same start true (t + 1) bs (bwrite b (set_data b (s.cache (start + t + 1)) s))
install_loop-Same start false t (b ∷ bs) s =
    install_loop-Same start false (t + 1) bs
      (bunpin b (bwrite b (set_data b (s.cache (start + t + 1)) s)))

nil_of_length : (bs : List ℕ) → ltb 0 (length bs) ≡ false → bs ≡ []
nil_of_length [] h = refl
nil_of_length (b ∷ bs) h = ground arith

commit-counters :
    (start : ℕ) (s : Log)
    → ((commit start s).outstanding ≡ s.outstanding) × ((commit start s).lh ≡ [])
unfolding commit Same
commit-counters start s = elim (Bool-cases (ltb 0 (length s.lh))) [
  | inl more ↦ rw more (
    (install_loop-Same start false 0 (write_loop start 0 s.lh s).lh
          (write_head start (write_loop start 0 s.lh s))).0
        ∙ (write_loop-Same start 0 s.lh s).0,
    refl,
  )
  | inr none_left ↦ rw none_left (refl, nil_of_length s.lh none_left)
]

sum-set : (xs : List ℕ) (i k v : ℕ) → get_elem? xs i ≡ some k → sum (set xs i v) + k ≡ sum xs + v
unfolding sum
sum-set [] i k v h = cc
sum-set (x ∷ xs) zero k v h = ground arith
sum-set (x ∷ xs) (suc i) k v h = omega (arith, sum-set xs i k v h)

remove_facts :
    (xs : List ℕ) (i k : ℕ)
    → get_elem? xs i ≡ some k
    → (sum (remove xs i) + k ≡ sum xs) × (length (remove xs i) + 1 ≡ length xs)
unfolding sum remove
remove_facts [] i k h = cc
remove_facts (x ∷ xs) zero k h = ground arith
remove_facts (x ∷ xs) (suc i) k h = omega (arith, remove_facts xs i k h)

set_nil : (xs : List ℕ) (i k : ℕ) → get_elem? xs i ≡ some k → xs ≢ []
set_nil [] i k h = cc
set_nil (x ∷ xs) i k h = ground arith

sum-le : (xs : List ℕ) → All (λ k. k ≤ maxopblocks) xs → sum xs ≤ length xs * maxopblocks
unfolding sum
sum-le [] h = omega arith
sum-le (x ∷ xs) h = omega (arith, sum-le xs h.1)

All-set :
    (xs : List ℕ) (i k : ℕ)
    → get_elem? xs i ≡ some (suc k)
    → All (λ k. k ≤ maxopblocks) xs
    → All (λ k. k ≤ maxopblocks) (set xs i k)
All-set [] i k e h = tt
All-set (x ∷ xs) zero k e h = (ground arith, h.1)
All-set (x ∷ xs) (suc i) k e h = (h.0, All-set xs i k e h.1)

All-remove :
    (xs : List ℕ) (i : ℕ) → All (λ k. k ≤ maxopblocks) xs → All (λ k. k ≤ maxopblocks) (remove xs i)
unfolding remove
All-remove [] i h = tt
All-remove (x ∷ xs) zero h = h.1
All-remove (x ∷ xs) (suc i) h = (h.0, All-remove xs i h.1)

nil_of_empty : (xs : List ℕ) → length xs ≡ 0 → xs ≡ []
nil_of_empty [] h = refl
nil_of_empty (x ∷ xs) h = absurd (omega arith)

-- Every step keeps the reservation.
pub Step-Reserved : (start size : ℕ) {s t : Calls} → Step start size s t → Reserved s → Reserved t
Step-Reserved start size {s} (begins {l} e) r =
    let inv = begin_op_inv s.log e in
    record {
      room = rw inv.2 (unfold sum in omega (arith, inv.0, sum-le s.budgets r.within, r.counted));
      within = (omega arith, r.within);
      counted = rw inv.2 (omega (arith, r.counted));
      alone = λ c. absurd (ground (arith, inv.1, ap (λ (x : Log). x.committing) inv.2));
      distinct = rw inv.2 r.distinct;
    }
Step-Reserved start size {s} (adds {l} i k b e n w) r =
    let inv = log_write_inv size b s.log w in
    let grown : l.lh ≡ s.log.lh ++ (b ∷ []) = inv.2 ∙ rw n refl in
    record {
      room = rw (grown, length-append) (omega (arith, r.room, sum-set s.budgets i (suc k) k e));
      within = All-set s.budgets i k e r.within;
      counted = rw (inv.0, length-set) r.counted;
      alone = λ c. absurd (set_nil s.budgets i _ e (r.alone (sym inv.1 ∙ c)));
      distinct = rw inv.2 (Distinct-lh s.log.lh b r.distinct);
    }
Step-Reserved start size {s} (absorbs {l} i k b e n w) r =
    let inv = log_write_inv size b s.log w in
    let kept : l.lh ≡ s.log.lh = inv.2 ∙ rw n refl in
    record {
      room = rw kept r.room;
      within = r.within;
      counted = rw inv.0 r.counted;
      alone = λ c. r.alone (sym inv.1 ∙ c);
      distinct = rw kept r.distinct;
    }
Step-Reserved start size {s} (ends {l} c i k e w) r =
    let inv = end_op_inv s.log w in
    let gone = remove_facts s.budgets i k e in
    record {
      room = rw inv.2 (omega (arith, r.room, gone));
      within = All-remove s.budgets i r.within;
      counted = omega (arith, r.counted, gone.1, inv.1);
      alone =
          λ c. nil_of_empty (remove s.budgets i) (omega (arith, r.counted, gone.1, inv.1, inv.3 c));
      distinct = rw inv.2 r.distinct;
    }
Step-Reserved start size {s} (commits c) r =
    let after = commit-counters start s.log in
    unfold end_op_commit in
    record {
      room = rw after.1 (omega (arith, r.room));
      within = r.within;
      counted = after.0 ∙ r.counted;
      alone = λ c. cc;
      distinct = rw after.1 tt;
    }

pub Reach-Reserved : (start size : ℕ) {s t : Calls} → Reach start size s t → Reserved s → Reserved t
Reach-Reserved start size here r = r
Reach-Reserved start size (later p st) r =
    Step-Reserved start size st (Reach-Reserved start size p r)
