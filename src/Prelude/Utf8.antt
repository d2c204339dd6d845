-- ===== src/Prelude/Utf8.antt =====
-- UTF-8 as `read_line` checks it, and the white space that `str::trim` takes off: a text is the list of its
-- code points.
use Prim.Native.Nat.{ℕ, zero, suc, ◌+◌, ◌-◌, ◌*◌, ◌<◌}
use mathlib.Core.Path.{◌≡◌, refl, ap, ◌∙◌}
use mathlib.Core.Bool.{Bool, true, false, ◌&&◌, ◌||◌}
use mathlib.Core.Option.{Option, none, some}
use mathlib.Core.List.{List, [], ◌∷◌, ◌++◌}
use native.Mathlib.Omega.{arith}
use kernmini.Prelude.Tests.{ltb, leb, if◌then◌else◌, map_option}
use kernmini.Prelude.Lists.{All}

abbrev pub within : ℕ → ℕ → ℕ → Bool
within lo hi b = leb lo b && leb b hi

-- What a byte begins: the bytes to come, the bits so far, and the range of the next byte.
abbrev pub Lead : Type 0
Lead = ℕ × ℕ × ℕ × ℕ

unfoldable pub lead : ℕ → Option Lead
lead b =
    if ltb b 0x80
    then some (0, b, 0, 0)
    else if within 0xC2 0xDF b
    then some (1, b - 0xC0, 0x80, 0xBF)
    else if within 0xE0 0xE0 b
    then some (2, 0, 0xA0, 0xBF)
    else if within 0xED 0xED b
    then some (2, 0xD, 0x80, 0x9F)
    else if within 0xE1 0xEF b
    then some (2, b - 0xE0, 0x80, 0xBF)
    else if within 0xF0 0xF0 b
    then some (3, 0, 0x90, 0xBF)
    else if within 0xF1 0xF3 b
    then some (3, b - 0xF0, 0x80, 0xBF)
    else if within 0xF4 0xF4 b
    then some (3, 4, 0x80, 0x8F)
    else none

-- `next` are the bytes after this one, for each number of bytes to come.
abbrev pub after_lead : Option Lead → (ℕ → ℕ → ℕ → ℕ → Option (List ℕ)) → Option (List ℕ)
after_lead none next = none
after_lead (some (zero, bits, lo, hi)) next = map_option (λ cs. bits ∷ cs) (next 0 0 0 0)
after_lead (some (suc n, bits, lo, hi)) next = next (suc n) bits lo hi

-- With `more` bytes of a code point to come, which has the bits `bits` so far.
unfoldable pub decode_from : List ℕ → ℕ → ℕ → ℕ → ℕ → Option (List ℕ)
unfolding lead
decode_from [] zero bits lo hi = some []
decode_from [] (suc more) bits lo hi = none
decode_from (b ∷ bs) zero bits lo hi = after_lead (lead b) (decode_from bs)
decode_from (b ∷ bs) (suc zero) bits lo hi =
    let rest = decode_from bs 0 0 0 0 in
    if within lo hi b then map_option (λ cs. (bits * 64 + (b - 0x80)) ∷ cs) rest else none
decode_from (b ∷ bs) (suc (suc more)) bits lo hi =
    let rest = decode_from bs (suc more) (bits * 64 + (b - 0x80)) 0x80 0xBF in
    if within lo hi b then rest else none

unfoldable pub decode_utf8 : List ℕ → Option (List ℕ)
unfolding decode_from
decode_utf8 bs = decode_from bs 0 0 0 0

-- `char::is_whitespace`
unfoldable pub is_whitespace : ℕ → Bool
is_whitespace c =
    within 9 13 c
    || within 32 32 c
    || within 0x85 0x85 c
    || within 0xA0 0xA0 c
    || within 0x1680 0x1680 c
    || within 0x2000 0x200A c
    || within 0x2028 0x2029 c
    || within 0x202F 0x202F c
    || within 0x205F 0x205F c
    || within 0x3000 0x3000 c

unfoldable pub trim_start : List ℕ → List ℕ
unfolding is_whitespace
trim_start [] = []
trim_start (c ∷ cs) = let rest = trim_start cs in if is_whitespace c then rest else c ∷ cs

-- Without a trailing white space: `c` is one only if nothing is left behind it.
abbrev pub before_end : ℕ → List ℕ → List ℕ
before_end c [] = if is_whitespace c then [] else c ∷ []
before_end c (d ∷ ds) = c ∷ d ∷ ds

unfoldable pub trim_end : List ℕ → List ℕ
unfolding is_whitespace
trim_end [] = []
trim_end (c ∷ cs) = before_end c (trim_end cs)

-- `str::trim`
unfoldable pub trim : List ℕ → List ℕ
unfolding trim_start trim_end
trim cs = trim_end (trim_start cs)

lead-ascii : (b : ℕ) → b < 0x80 → lead b ≡ some (0, b, 0, 0)
unfolding lead
lead-ascii b h = ground arith

pub decode_utf8-ascii : (bs : List ℕ) → All (λ b. b < 0x80) bs → decode_utf8 bs ≡ some bs
unfolding decode_utf8 decode_from
decode_utf8-ascii [] a = refl
decode_utf8-ascii (b ∷ bs) a =
    ap (λ l. after_lead l (decode_from bs)) (lead-ascii b a.0)
    ∙ ap (map_option (λ cs. b ∷ cs)) (decode_utf8-ascii bs a.1)

-- A word between white space.
abbrev pub IsWord : List ℕ → Type 0
IsWord w = All (λ c. is_whitespace c ≡ false) w

trim_end-whitespace : (cs : List ℕ) → All (λ c. is_whitespace c ≡ true) cs → trim_end cs ≡ []
unfolding trim_end
trim_end-whitespace [] a = refl
trim_end-whitespace (c ∷ cs) a = rw (trim_end-whitespace cs a.1, a.0) refl

before_end-word : (c : ℕ) (cs : List ℕ) → is_whitespace c ≡ false → before_end c cs ≡ c ∷ cs
before_end-word c [] e = rw e refl
before_end-word c (d ∷ ds) e = refl

trim_end-word :
    (w cs : List ℕ) → IsWord w → All (λ c. is_whitespace c ≡ true) cs → trim_end (w ++ cs) ≡ w
unfolding trim_end
trim_end-word [] cs a s = trim_end-whitespace cs s
trim_end-word (c ∷ w) cs a s =
    ap (before_end c) (trim_end-word w cs a.1 s) ∙ before_end-word c w a.0

pub trim-word :
    (sp : ℕ) (c : ℕ) (w cs : List ℕ)
    → is_whitespace sp ≡ true
    → IsWord (c ∷ w)
    → All (λ d. is_whitespace d ≡ true) cs
    → trim (sp ∷ c ∷ w ++ cs) ≡ c ∷ w
unfolding trim trim_start
trim-word sp c w cs e a s = rw (e, a.0) (trim_end-word (c ∷ w) cs a s)
