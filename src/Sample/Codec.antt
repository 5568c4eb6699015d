-- ===== src/Sample/Codec.antt =====
-- A sequence of typed values as octets without a NUL: each is its type, its octets, and a 1, all
-- but the last shifted by 2.
use mathlib.Core.List.{append_assoc, append-nil}
use mathlib.Core.Path.{subst}
use mathlib.Core.Option.{some-injective}
use nac_abe.Common.{
  ℕ, zero, suc, Bytes, ◌≡◌, refl, true, Option, none, some, List, [], ◌∷◌, ◌++◌, arith,
  Option-cases, inl, inr,
}
use nac_abe.Common.Text.{has_no_nul}

abbrev pub Field : Type 0
Field = ℕ × Bytes

unfoldable pub body : Bytes → Bytes
body [] = 1 ∷ []
body (x ∷ v) = suc (suc x) ∷ body v

unfoldable pub frame : Field → Bytes
unfolding body
frame (t, v) = suc (suc t) ∷ body v

unfoldable pub frames : List Field → Bytes
unfolding frame
frames [] = []
frames (e ∷ es) = frame e ++ frames es

pub data Mode : Type 0 where
  between : Mode
  inside : ℕ → Bytes → Mode

abbrev pub cons? : Field → Option (List Field) → Option (List Field)
cons? e none = none
cons? e (some es) = some (e ∷ es)

unfoldable pub read : Mode → Bytes → Option (List Field)
read between [] = some []
read between (zero ∷ r) = none
read between (suc zero ∷ r) = none
read between (suc (suc t) ∷ r) = read (inside t []) r
read (inside t acc) [] = none
read (inside t acc) (zero ∷ r) = none
read (inside t acc) (suc zero ∷ r) = cons? (t, acc) (read between r)
read (inside t acc) (suc (suc x) ∷ r) = read (inside t (acc ++ x ∷ [])) r

unfoldable pub unframes : Bytes → Option (List Field)
unfolding read
unframes = read between

read-body :
    (t : ℕ) (acc v r : Bytes)
    → read (inside t acc) (body v ++ r) ≡ cons? (t, acc ++ v) (read between r)
unfolding read body
read-body t acc [] r = rw append-nil
read-body t acc (x ∷ v) r = rw (read-body t (acc ++ x ∷ []) v r, append_assoc)

pub unframes-frames : (es : List Field) → unframes (frames es) ≡ some es
unfolding unframes frames
unframes-frames [] = refl
unframes-frames ((t, v) ∷ es) = rw (read-body t [] v (frames es), unframes-frames es)

read-one : (t : ℕ) (v : Bytes) → read (inside t []) (body v) ≡ some ((t, v) ∷ [])
unfolding read
read-one t v =
    subst (λ b. read (inside t []) b ≡ some ((t, v) ∷ [])) (append-nil (body v))
      (read-body t [] v [])

read-append :
    (m : Mode) (b : Bytes) (e : Field) (es : List Field)
    → read m b ≡ some es
    → read m (b ++ frame e) ≡ some (es ++ e ∷ [])
unfolding read frame
read-append between [] (t, v) es h =
    subst (λ l. read (inside t []) (body v) ≡ some (l ++ (t, v) ∷ [])) (some-injective [] es h)
      (read-one t v)
read-append between (zero ∷ b) e es h = cc
read-append between (suc zero ∷ b) e es h = cc
read-append between (suc (suc t) ∷ b) e es h = read-append (inside t []) b e es h
read-append (inside t acc) [] e es h = cc
read-append (inside t acc) (zero ∷ b) e es h = cc
read-append (inside t acc) (suc zero ∷ b) e es h = elim (Option-cases (read between b)) [
  | inl n ↦ cc
  | inr (fs, k) ↦ rw (read-append between b e fs k) (cc)
]
read-append (inside t acc) (suc (suc x) ∷ b) e es h =
    read-append (inside t (acc ++ x ∷ [])) b e es h

pub unframes-append :
    (b : Bytes) (e : Field) (es : List Field)
    → unframes b ≡ some es
    → unframes (b ++ frame e) ≡ some (es ++ e ∷ [])
unfolding unframes
unframes-append = read-append between

body_text : (v : Bytes) → has_no_nul (body v) ≡ true
unfolding body
body_text [] = refl
body_text (x ∷ v) = ground (arith, body_text v)

text-append : (a b : Bytes) → has_no_nul a ≡ true → has_no_nul b ≡ true → has_no_nul (a ++ b) ≡ true
text-append [] b h k = k
text-append (x ∷ a) b h k = ground (arith, text-append a b)

-- A sequence is written without a NUL.
pub frames_text : (es : List Field) → has_no_nul (frames es) ≡ true
unfolding frames
frames_text [] = refl
frames_text ((t, v) ∷ es) =
    text-append (frame (t, v)) (frames es) (ground (arith, body_text v)) (frames_text es)
