-- ===== src/Console/Ring.antt =====
-- The ring of the console as a line of characters, the first of them ready to be read.
use operating_systems.Prelude.{
  ℕ, zero, suc, ◌%◌, ◌^◌, ◌≤◌, ◌<◌, ◌≡◌, refl, ap, ap₂, ◌≢◌, List, [], ◌∷◌, ◌++◌, arith, length,
  set, get_or, take, get_or-set_self, get_or-set_ne,
}
use operating_systems.Console.{Cons, input_buf, newline, plus, minus}

-- The characters that are stored, and those of them that `consoleread` may take.
abbrev pub count : Cons → ℕ
count s = minus s.e s.r

abbrev pub ready : Cons → ℕ
ready s = minus s.w s.r

-- The character `i` places behind the read index.
abbrev pub char_at : Cons → ℕ → ℕ
char_at s i = get_or s.buf (plus s.r i % input_buf) 0

-- No newline stands among the characters that can still be edited.
pub record IsValid (s : Cons) : Type 0 where
  pub ring : length s.buf ≡ input_buf
  pub r_fits : s.r < 2 ^ 32
  pub w_fits : s.w < 2 ^ 32
  pub e_fits : s.e < 2 ^ 32
  pub bounded : count s ≤ input_buf
  pub ordered : ready s ≤ count s
  pub one_line : (i : ℕ) → ready s ≤ i → i < count s → char_at s i ≢ newline

-- The `n` characters from index `r` on.
abbrev pub window : List ℕ → ℕ → ℕ → List ℕ
window buf r zero = []
window buf r (suc n) = get_or buf (r % input_buf) 0 ∷ window buf (plus r 1) n

-- The characters that are stored, oldest first.
abbrev pub line : Cons → List ℕ
line s = window s.buf s.r (count s)

pub window-set :
    (buf : List ℕ) (ch n r w : ℕ)
    → length buf ≡ input_buf
    → n < input_buf
    → r < 2 ^ 32
    → w ≡ plus r n
    → window (set buf (w % input_buf) ch) r (suc n) ≡ window buf r n ++ (ch ∷ [])
window-set buf ch zero r w len h hr e =
    ap (λ x. x ∷ []) (rw same (get_or-set_self buf (r % input_buf) ch 0 (omega arith)))
  where
    same : w % input_buf ≡ r % input_buf
    same = omega arith
window-set buf ch (suc n) r w len h hr e =
    ap₂ ◌∷◌ (get_or-set_ne buf (w % input_buf) (r % input_buf) ch 0 (omega arith))
      (window-set buf ch n (plus r 1) w len (omega arith) (omega arith) (omega arith))

pub take-window : (buf : List ℕ) (r n k : ℕ) → k ≤ n → take k (window buf r n) ≡ window buf r k
take-window buf r n zero h = refl
take-window buf r zero (suc k) h = elim h [ ]
take-window buf r (suc n) (suc k) h =
    ap (λ l. get_or buf (r % input_buf) 0 ∷ l) (take-window buf (plus r 1) n k (omega arith))
