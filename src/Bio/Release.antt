-- ===== src/Bio/Release.antt =====
-- `brelse` and `bwrite`: what a process does with a buffer that it has read.
use operating_systems.Prelude.{
  ℕ, ◌-◌, ◌<◌, ◌≡◌, refl, sym, ap, ◌∙◌, subst, ◌≢◌, inl, inr, true, false, none, some, List, [],
  ◌∷◌, ◌++◌, arith, ◌==◌, if◌then◌else◌, Bool-cases, update, update_self, update_ne, has,
}
use operating_systems.Bio.{Block, Buf, Cache, is_for, holds, set_buf, bwrite, unlink, brelse}
use operating_systems.Bio.Find.{find_lem}
use operating_systems.Bio.Current.{
  shown, IsValid, current_cached, current-Absent, SameBlocks, Alike, set_lem,
}

unlink_list :
    (b : ℕ) (order : List ℕ)
    → has order b ≡ true
    → ((y : ℕ) → has (b ∷ unlink b order) y ≡ has order y)
unfolding unlink
unlink_list b [] mem y = absurd cc
unlink_list b (x ∷ order) mem y = elim (Bool-cases (x == b)) [
  | inl e ↦ rw e (let same : x ≡ b = ground arith in rw same refl)
  | inr e ↦ rw e (let ih = unlink_list b order (ground arith) y in ground arith)
]

-- Where the buffer stood, and the list without it.
split_at :
    (b : ℕ) (order : List ℕ)
    → has order b ≡ true
    → (pre post : List ℕ) × (order ≡ pre ++ (b ∷ post))
      × (has pre b ≡ false)
      × (unlink b order ≡ pre ++ post)
unfolding unlink
split_at b [] mem = absurd cc
split_at b (x ∷ order) mem = elim (Bool-cases (x == b)) [
  | inl e ↦
      let same : x ≡ b = ground arith in ([], order, ap (λ z. z ∷ order) same, refl, rw e refl)
  | inr e ↦
      let (pre, post, whole, first, left) = split_at b order (ground arith) in
      (x ∷ pre, post, ap (λ l. x ∷ l) whole, ground arith, rw e (ap (λ l. x ∷ l) left))
]

-- The buffer has moved from its one place in the list to the front, and the others stand as before.
abbrev pub ToFront : ℕ → List ℕ → List ℕ → Type 0
ToFront b order order' =
    (pre post : List ℕ) × (order ≡ pre ++ (b ∷ post))
    × (has pre b ≡ false)
    × (order' ≡ b ∷ (pre ++ post))

unlink-ToFront :
    (b : ℕ) (order : List ℕ) → has order b ≡ true → ToFront b order (b ∷ unlink b order)
unlink-ToFront b order mem =
    let (pre, post, whole, first, left) = split_at b order mem in
    (pre, post, whole, first, ap (λ l. b ∷ l) left)

-- A process may give a buffer back: it holds the lock and a reference, and has written what it
-- changed, unless others refer to the buffer still.
pub record MayRelease (s : Cache) (pid b : ℕ) : Type 0 where
  pub listed : has s.order b ≡ true
  pub locked : (s.buf b).holder ≡ some pid
  pub counted : 0 < (s.buf b).refcnt
  pub written :
      (s.buf b).refcnt ≡ 1
      → (s.buf b).valid ≡ true
      → (s.buf b).content ≡ s.disk (s.buf b).dev (s.buf b).blockno

abbrev given_up : Buf → Buf
given_up x = record x { holder = none; refcnt = x.refcnt - 1 }

brelse_run :
    (pid b : ℕ) (s : Cache)
    → (s.buf b).holder ≡ some pid
    → brelse pid b s
      ≡ some (
          if (s.buf b).refcnt - 1 == 0
          then record (set_buf s b (given_up (s.buf b))) { order = b ∷ unlink b s.order }
          else set_buf s b (given_up (s.buf b)))
unfolding brelse holds
brelse_run pid b s h =
    let mine : holds (s.buf b).holder pid ≡ true = rw h (ground arith) in
    elim (Bool-cases ((s.buf b).refcnt - 1 == 0)) [
      | inl y ↦ rw (mine, y, brelse) refl
      | inr n ↦ rw (mine, n, brelse) refl
    ]

-- `brelse` of a buffer that the process may give back takes a reference and the lock away; when
-- that was the last reference it moves the buffer from the one place of the list where it is found to
-- the front, with the others in their order; else the list is as it was. It changes no other buffer
-- and no block, and keeps the cache valid.
pub brelse_lem :
    (pid b : ℕ) (s : Cache)
    → IsValid s
    → MayRelease s pid b
    → (t : Cache) × (brelse pid b s ≡ some t)
      × IsValid t
      × SameBlocks s t
      × (t.buf b ≡ record (s.buf b) { holder = none; refcnt = (s.buf b).refcnt - 1 })
      × ((y : ℕ) → b ≢ y → t.buf y ≡ s.buf y)
      × ((s.buf b).refcnt ≡ 1 → ToFront b s.order t.order)
      × ((s.buf b).refcnt ≢ 1 → t.order ≡ s.order)
brelse_lem pid b s v may =
    let x = given_up (s.buf b) in
    let alike : Alike s b x = record {
      dev = refl;
      blockno = refl;
      shows = refl;
      clean = λ z. may.written (omega (arith, may.counted));
      unlocked = λ z. refl;
    } in
    let run = brelse_run pid b s may.locked in
    elim (Bool-cases ((s.buf b).refcnt == 1)) [
      | inl y ↦
          let last : ((s.buf b).refcnt - 1 == 0) ≡ true = ground arith in
          let order = b ∷ unlink b s.order in
          let r = set_lem s b x order v may.listed (unlink_list b s.order may.listed) alike in
          (
            record { buf = update s.buf b x; order = order; disk = s.disk },
            run ∙ rw last refl,
            r.0,
            r.1,
            update_self s.buf b x,
            λ z ne. update_ne s.buf b x z ne,
            λ e. unlink-ToFront b s.order may.listed,
            λ e. absurd (ground arith),
          )
      | inr n ↦
          let more : ((s.buf b).refcnt - 1 == 0) ≡ false = ground (arith, may.counted) in
          let r = set_lem s b x s.order v may.listed (λ z. refl) alike in
          (
            set_buf s b x,
            run ∙ rw more refl,
            r.0,
            r.1,
            update_self s.buf b x,
            λ z ne. update_ne s.buf b x z ne,
            λ e. absurd (ground arith),
            λ e. refl,
          )
    ]

-- The disk after a write of buffer `b`.
abbrev stored : Cache → ℕ → ℕ → ℕ → Block
stored s b =
    update s.disk (s.buf b).dev (update (s.disk (s.buf b).dev) (s.buf b).blockno (s.buf b).content)

stored_here : (s : Cache) (b : ℕ) → stored s b (s.buf b).dev (s.buf b).blockno ≡ (s.buf b).content
stored_here s b =
    ap (λ (f : ℕ → Block). f (s.buf b).blockno)
      (update_self s.disk (s.buf b).dev
        (update (s.disk (s.buf b).dev) (s.buf b).blockno (s.buf b).content))
    ∙ update_self (s.disk (s.buf b).dev) (s.buf b).blockno (s.buf b).content

stored_other : (s : Cache) (b d n : ℕ) → is_for (s.buf b) d n ≡ false → stored s b d n ≡ s.disk d n
stored_other s b d n h = elim (Bool-cases ((s.buf b).dev == d)) [
  | inl y ↦
      let same : (s.buf b).dev ≡ d = ground arith in
      let other : ((s.buf b).blockno == n) ≡ false = ground arith in
      rw y (rw other (ap (λ e. s.disk e n) same))
  | inr y ↦ rw y refl
]

bwrite_run :
    (pid b : ℕ) (s : Cache)
    → (s.buf b).holder ≡ some pid
    → bwrite pid b s ≡ some (record s { disk = stored s b })
unfolding bwrite holds
bwrite_run pid b s h =
    let mine : holds (s.buf b).holder pid ≡ true = rw h (ground arith) in rw (mine, bwrite) refl

-- Another listed buffer is for another block.
module _ (s : Cache) (b : ℕ) (v : IsValid s) (mem : has s.order b ≡ true)
    (nd : (s.buf b).dev ≢ 0) where
  is_self : is_for (s.buf b) (s.buf b).dev (s.buf b).blockno ≡ true
  is_self = ground arith

  other_key :
      (y : ℕ)
      → has s.order y ≡ true
      → b ≢ y
      → is_for (s.buf b) (s.buf y).dev (s.buf y).blockno ≡ false
  other_key y my ne = elim (Bool-cases (is_for (s.buf b) (s.buf y).dev (s.buf y).blockno)) [
    | inr out ↦ out
    | inl is ↦
        let dev : (s.buf b).dev ≡ (s.buf y).dev = ground arith in
        let is_y : is_for (s.buf y) (s.buf y).dev (s.buf y).blockno ≡ true = ground arith in
        let d : (s.buf y).dev ≢ 0 = λ z. nd (dev ∙ z) in
        absurd (ne (v.one_buffer b y (s.buf y).dev (s.buf y).blockno mem my d is is_y))
  ]

  abbrev flushed : Cache
  flushed = record s { disk = stored s b }

  flushed-IsValid : IsValid flushed
  flushed-IsValid = record { one_buffer = v.one_buffer; clean = clean; unlocked = v.unlocked }
    where
      clean :
          (y : ℕ)
          → has s.order y ≡ true
          → (s.buf y).refcnt ≡ 0
          → (s.buf y).valid ≡ true
          → (s.buf y).content ≡ stored s b (s.buf y).dev (s.buf y).blockno
      clean y my free ok = elim (Bool-cases (b == y)) [
        | inl e ↦
            let same : b ≡ y = ground arith in
            subst (λ z. (s.buf z).content ≡ stored s b (s.buf z).dev (s.buf z).blockno) same
              (sym (stored_here s b))
        | inr e ↦
            v.clean y my free ok
            ∙ sym (stored_other s b (s.buf y).dev (s.buf y).blockno (other_key y my (ground arith)))
      ]

  flushed-shown :
      (c : ℕ) → has s.order c ≡ true → (s.buf b).valid ≡ true → shown flushed c ≡ shown s c
  flushed-shown c mc ok = elim (Bool-cases (b == c)) [
    | inl e ↦
        let same : b ≡ c = ground arith in
        subst (λ z. shown flushed z ≡ shown s z) same (rw ok refl)
    | inr e ↦
        ap (λ (k : Block). if (s.buf c).valid then (s.buf c).content else k)
          (stored_other s b (s.buf c).dev (s.buf c).blockno (other_key c mc (ground arith)))
  ]

  flushed-SameBlocks : (s.buf b).valid ≡ true → SameBlocks s flushed
  flushed-SameBlocks ok d n ne = elim (find_lem s.buf d n s.order) [
    | inl (e, absent) ↦
        current-Absent flushed d n absent
        ∙ stored_other s b d n (absent b mem)
        ∙ sym (current-Absent s d n absent)
    | inr (c, e, mc, is) ↦
        current_cached flushed d n c flushed-IsValid ne mc is
        ∙ flushed-shown c mc ok
        ∙ sym (current_cached s d n c v ne mc is)
  ]

-- `bwrite` by the process that has the buffer locked puts its contents on the disk, at its block, and
-- nothing else. It keeps the cache valid and changes no block as a reader sees it.
pub bwrite_lem :
    (pid b : ℕ) (s : Cache)
    → IsValid s
    → has s.order b ≡ true
    → (s.buf b).dev ≢ 0
    → (s.buf b).valid ≡ true
    → (s.buf b).holder ≡ some pid
    → (t : Cache) × (bwrite pid b s ≡ some t)
      × (t.disk (s.buf b).dev (s.buf b).blockno ≡ (s.buf b).content)
      × ((d n : ℕ) → is_for (s.buf b) d n ≡ false → t.disk d n ≡ s.disk d n)
      × (t.buf ≡ s.buf)
      × (t.order ≡ s.order)
      × IsValid t
      × SameBlocks s t
bwrite_lem pid b s v mem nd ok h = (
  flushed s b v mem nd,
  bwrite_run pid b s h,
  stored_here s b,
  λ d n other. stored_other s b d n other,
  refl,
  refl,
  flushed-IsValid s b v mem nd,
  flushed-SameBlocks s b v mem nd ok,
)
