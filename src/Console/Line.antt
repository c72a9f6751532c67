-- ===== src/Console/Line.antt =====
-- The line that is typed, and the ring as such a line.
use operating_systems.Prelude.{
  ℕ, zero, suc, ◌-◌, ◌%◌, ◌≤◌, ◌<◌, ◌≡◌, refl, sym, ap, ap₂, ◌∙◌, subst, ◌≢◌, inl, inr, Bool, true,
  false, ◌&&◌, ◌||◌, not, some, List, [], ◌∷◌, ◌++◌, arith, ltb, ◌==◌, if◌then◌else◌, Bool-cases,
  length, set, length-append, length-set, get_or, take, get_or-set_self, get_or-set_ne,
}
use operating_systems.Console.{
  Cons, Handled, input_buf, newline, carriage_return, backspace, control, plus, minus, consputc,
  kill_loop, store,
}
use operating_systems.Console.Ring.{IsValid, count, ready, window, line, window-set, take-window}

-- The characters that are stored, the first `ready` of them complete lines.
pub record Line : Type 0 where
  pub chars : List ℕ
  pub ready : ℕ

abbrev pub view : Cons → Line
view s = record { chars = line s; ready = ready s }

-- A character that is stored, behind which a line may be complete.
abbrev pub enter : ℕ → Line → Line
enter c l =
    let chars = l.chars ++ (c ∷ []) in
    if (c == newline) || (c == control b'D') || (length chars == input_buf)
    then record { chars = chars; ready = length chars }
    else record { chars = chars; ready = l.ready }

-- Only characters behind the ready ones are erased.
abbrev pub typed : ℕ → Line → Line
typed c l =
    if c == control b'P'
    then l
    else if c == control b'U'
    then record { chars = take l.ready l.chars; ready = l.ready }
    else if (c == control b'H') || (c == 0x7f)
    then if ltb l.ready (length l.chars)
      then record { chars = take (length l.chars - 1) l.chars; ready = l.ready }
      else l
    else if not (c == 0) && ltb (length l.chars) input_buf
    then enter (if c == carriage_return then newline else c) l
    else l

pub length-line : (s : Cons) → length (line s) ≡ count s
length-line s = length-window s.buf s.r (count s)
  where
    length-window : (buf : List ℕ) (r n : ℕ) → length (window buf r n) ≡ n
    length-window buf r zero = refl
    length-window buf r (suc n) = ap suc (length-window buf (plus r 1) n)

-- The edit index goes back to `e`, not beyond what is ready.
pub back-IsValid :
    (s : Cons) (k : ℕ)
    → IsValid s
    → ready s ≤ k
    → k ≤ count s
    → IsValid (record s { e = plus s.r k })
back-IsValid s k v lo hi = record {
  ring = v.ring;
  r_fits = v.r_fits;
  w_fits = v.w_fits;
  e_fits = omega arith;
  bounded = omega arith;
  ordered = omega arith;
  one_line = λ i h k'. v.one_line i h (omega arith);
}

pub back-line :
    (s : Cons) (k : ℕ)
    → IsValid s
    → k ≤ count s
    → line (record s { e = plus s.r k }) ≡ take k (line s)
back-line s k v h = ap (window s.buf s.r) count_k ∙ sym (take-window s.buf s.r (count s) k h)
  where
    count_k : minus (plus s.r k) s.r ≡ k
    count_k = omega arith

last_char :
    (s : Cons)
    → IsValid s
    → s.e ≢ s.w
    → (get_or s.buf (minus s.e 1 % input_buf) 0 == newline) ≡ false
last_char s v ne =
    let same : plus s.r (count s - 1) ≡ minus s.e 1 = omega arith in
    let other : get_or s.buf (minus s.e 1 % input_buf) 0 ≢ newline = λ e.
      v.one_line (count s - 1) (omega arith) (omega arith)
        (ap (λ i. get_or s.buf (i % input_buf) 0) same ∙ e) in
    ground arith

-- The loop of control-U stops at the ready characters, before any newline.
pub kill_loop_lem :
    (fuel : ℕ) (s : Cons)
    → IsValid s
    → count s - ready s < fuel
    → (out : List ℕ) × (kill_loop fuel s ≡ some (record s { e = s.w }, out))
unfolding kill_loop
kill_loop_lem zero s v h = elim h [ ]
kill_loop_lem (suc fuel) s v h = elim (Bool-cases (s.e == s.w)) [
  | inl done ↦
      let at_end : s.e ≡ s.w = ground arith in
      ([], rw done (ap (λ e. some (record s { e = e }, [])) at_end))
  | inr more ↦
      let ne : s.e ≢ s.w = ground arith in
      let valid : IsValid (record s { e = minus s.e 1 }) =
        subst (λ k. IsValid (record s { e = k })) (omega arith)
          (back-IsValid s (count s - 1) v (omega arith) (omega arith)) in
      let rest = kill_loop_lem fuel (record s { e = minus s.e 1 }) valid (omega arith) in
      (consputc backspace ++ rest.0, rw more (rw (last_char s v ne) (rw rest.1 refl)))
]

abbrev stored : ℕ → Cons → Cons
stored c s = record s { buf = set s.buf (s.e % input_buf) c; e = plus s.e 1 }

abbrev completed : ℕ → Cons → Cons
completed c s = record (stored c s) { w = plus s.e 1 }

line-stored :
    (c : ℕ) (s : Cons) → IsValid s → count s < input_buf → line (stored c s) ≡ line s ++ (c ∷ [])
line-stored c s v h =
    ap (window (set s.buf (s.e % input_buf) c) s.r) one_more
    ∙ window-set s.buf c (count s) s.r s.e v.ring h v.r_fits (omega arith)
  where
    one_more : minus (plus s.e 1) s.r ≡ suc (count s)
    one_more = omega arith

stored-IsValid :
    (c : ℕ) (s : Cons) → IsValid s → count s < input_buf → c ≢ newline → IsValid (stored c s)
stored-IsValid c s v h ne = record {
  ring = length-set s.buf _ c ∙ v.ring;
  r_fits = v.r_fits;
  w_fits = v.w_fits;
  e_fits = omega arith;
  bounded = omega arith;
  ordered = omega arith;
  one_line = λ i lo hi e. elim (Bool-cases (i == count s)) [
    | inl t ↦
        let same : i ≡ count s = ground arith in
        ne (
          sym (get_or-set_self s.buf (s.e % input_buf) c 0 (omega arith))
          ∙ ap (λ j. get_or (set s.buf (s.e % input_buf) c) (j % input_buf) 0) (omega arith)
          ∙ e)
    | inr f ↦
        let other : i ≢ count s = ground arith in
        v.one_line i lo (omega arith) (
          sym (get_or-set_ne s.buf (s.e % input_buf) (plus s.r i % input_buf) c 0 (omega arith))
          ∙ e)
  ];
}

completed-IsValid : (c : ℕ) (s : Cons) → IsValid s → count s < input_buf → IsValid (completed c s)
completed-IsValid c s v h = record {
  ring = length-set s.buf _ c ∙ v.ring;
  r_fits = v.r_fits;
  w_fits = omega arith;
  e_fits = omega arith;
  bounded = omega arith;
  ordered = omega arith;
  one_line = λ i lo hi e. omega arith;
}

full_same :
    (c : ℕ) (s : Cons)
    → IsValid s
    → count s < input_buf
    → (plus s.e 1 == plus s.r input_buf) ≡ (length (line s ++ (c ∷ [])) == input_buf)
full_same c s v h = rw (length-append (line s) (c ∷ [])) (rw (length-line s) (ground arith))

abbrev pub made : List ℕ → ℕ → Line
made chars ready = record { chars = chars; ready = ready }

abbrev completes : ℕ → Cons → Bool
completes c s = (c == newline) || (c == control b'D') || (plus s.e 1 == plus s.r input_buf)

enter_if :
    (c : ℕ) (s : Cons)
    → IsValid s
    → count s < input_buf
    → enter c (view s) ≡ (
        if completes c s
        then made (line s ++ (c ∷ [])) (length (line s ++ (c ∷ [])))
        else made (line s ++ (c ∷ [])) (ready s))
enter_if c s v h = rw (full_same c s v h) refl

store_if :
    (c : ℕ) (s : Cons)
    → store c s ≡ (
        if completes c s
        then record { cons = completed c s; echo = consputc c; wakes = true }
        else record { cons = stored c s; echo = consputc c; wakes = false })
unfolding store
store_if c s = refl

enter_complete :
    (c : ℕ) (s : Cons)
    → IsValid s
    → count s < input_buf
    → completes c s ≡ true
    → enter c (view s) ≡ made (line s ++ (c ∷ [])) (suc (count s))
enter_complete c s v h y =
    enter_if c s v h
    ∙ rw y (
        ap (made (line s ++ (c ∷ [])))
          (length-append (line s) (c ∷ []) ∙ omega (arith, length-line s)))

enter_more :
    (c : ℕ) (s : Cons)
    → IsValid s
    → count s < input_buf
    → completes c s ≡ false
    → enter c (view s) ≡ made (line s ++ (c ∷ [])) (ready s)
enter_more c s v h n = enter_if c s v h ∙ rw n refl

-- What storing a character comes to, the line complete or not.
abbrev IsStored : ℕ → Cons → Handled → Type 0
IsStored c s h =
    IsValid h.cons × (view h.cons ≡ enter c (view s)) × (h.wakes ≡ false → h.cons.w ≡ s.w)

pub store_lem : (c : ℕ) (s : Cons) → IsValid s → count s < input_buf → IsStored c s (store c s)
store_lem c s v h = subst (IsStored c s) (sym (store_if c s)) (elim (Bool-cases (completes c s)) [
  | inl y ↦ rw y (
    completed-IsValid c s v h,
    ap₂ made (line-stored c s v h) (omega arith) ∙ sym (enter_complete c s v h y),
    λ e. cc,
  )
  | inr n ↦ rw n (
    stored-IsValid c s v h (λ e. ground arith),
    ap (λ l. made l (ready s)) (line-stored c s v h) ∙ sym (enter_more c s v h n),
    λ e. refl,
  )
])
