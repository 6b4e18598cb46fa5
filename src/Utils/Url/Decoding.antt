-- ===== src/Utils/Url/Decoding.antt =====
-- `unescapeUrl` against the relation of percent-encoding.
use Prim.Native.Nat.{bit_or}
use getodac.Common.Bytes.{Bytes}
use getodac.Common.{
  ℕ, zero, suc, ◌+◌, ◌-◌, ◌*◌, ◌≤◌, ◌<◌, ◌≡◌, ◌≢◌, ◌↔◌, inl, inr, refl, ap, Bool, true, false, ◌&&◌,
  [], ◌∷◌, leb, ◌==◌, if◌then◌else◌, arith, ==_iff, Bool-cases, ◌∙◌,
}
use getodac.Exceptions.{Result, ok, throw, >>=-eq-ok}
use getodac.Utils.Url.{from_hex, hex_pair, push, unescape_url}

-- `ch` is a hexadecimal digit, in either case, of value `v`.
pub data HexDigit (ch v : ℕ) : Type 0 where
  digit : v < 10 → ch ≡ b'0' + v → HexDigit ch v
  lower : 10 ≤ v → v < 16 → ch ≡ b'a' + (v - 10) → HexDigit ch v
  upper : 10 ≤ v → v < 16 → ch ≡ b'A' + (v - 10) → HexDigit ch v

-- `s` is a percent-encoding of `out`.
pub data Encodes : Bytes → Bytes → Type 0 where
  done : Encodes [] []
  plain : {s out : Bytes} (c : ℕ) → c ≢ b'%' → c ≢ b'+' → Encodes s out → Encodes (c ∷ s) (c ∷ out)
  space :
      {s out : Bytes} (c d : ℕ) → c ≡ b'+' → d ≡ b' ' → Encodes s out → Encodes (c ∷ s) (d ∷ out)
  escape :
      {s out : Bytes} (c a b d h l : ℕ)
      → c ≡ b'%'
      → HexDigit a h
      → HexDigit b l
      → d ≡ h * 16 + l
      → Encodes s out
      → Encodes (c ∷ a ∷ b ∷ s) (d ∷ out)

from_hex-HexDigit : (ch v : ℕ) → from_hex ch ≡ ok v → HexDigit ch v
unfolding from_hex
from_hex-HexDigit ch v h = elim (Bool-cases (leb b'0' ch && leb ch b'9')) [
  | inl d ↦ HexDigit.digit (ground arith) (ground arith)
  | inr d ↦ elim (Bool-cases (leb b'a' ch && leb ch b'f')) [
    | inl e ↦ HexDigit.lower (ground arith) (ground arith) (ground arith)
    | inr e ↦ HexDigit.upper (ground arith) (ground arith) (ground arith)
  ]
]

HexDigit-from_hex : (ch v : ℕ) → HexDigit ch v → from_hex ch ≡ ok v
unfolding from_hex
HexDigit-from_hex ch v (digit h e) = ground arith
HexDigit-from_hex ch v (lower h k e) = ground arith
HexDigit-from_hex ch v (upper h k e) = ground arith

HexDigit-lt : (ch v : ℕ) → HexDigit ch v → v < 16
HexDigit-lt ch v (digit h e) = omega arith
HexDigit-lt ch v (lower h k e) = k
HexDigit-lt ch v (upper h k e) = k

-- Whether a test holds of every number up to a bound, and what that says of one of them.
passes_up_to : (ℕ → Bool) → ℕ → Bool
passes_up_to test zero = test 0
passes_up_to test (suc top) = passes_up_to test top && test (suc top)

passes_up_to_lem :
    (test : ℕ → Bool) (top v : ℕ) → v ≤ top → passes_up_to test top ≡ true → test v ≡ true
unfolding passes_up_to
passes_up_to_lem test zero v bound all = let e : v ≡ 0 = omega arith in rw e all
passes_up_to_lem test (suc top) v bound all = elim (Bool-cases (v == suc top)) [
  | inl last ↦ let e : v ≡ suc top = ground arith in rw e (ground arith)
  | inr below ↦ passes_up_to_lem test top v (ground arith) (ground arith)
]

adds_up : ℕ → ℕ → Bool
adds_up h l = bit_or (h * 16) l == h * 16 + l

adds_up_all : passes_up_to (λ h. passes_up_to (adds_up h) 15) 15 ≡ true
unfolding passes_up_to adds_up
adds_up_all = refl

bit_or_nibbles : (h l : ℕ) → h < 16 → l < 16 → bit_or (h * 16) l ≡ h * 16 + l
unfolding adds_up
bit_or_nibbles h l p q =
    let row = passes_up_to_lem (λ h. passes_up_to (adds_up h) 15) 15 h (omega arith) adds_up_all in
    (==_iff _ _).0 (passes_up_to_lem (adds_up h) 15 l (omega arith) row)

pub hex_pair_lem : (a b h l : ℕ) → HexDigit a h → HexDigit b l → hex_pair a b ≡ ok (h * 16 + l)
unfolding hex_pair
hex_pair_lem a b h l p q =
    rw (HexDigit-from_hex a h p, HexDigit-from_hex b l q)
      (ap ok (bit_or_nibbles h l (HexDigit-lt a h p) (HexDigit-lt b l q)))

ok-injective : (s t : Bytes) → ok s ≡ ok t → s ≡ t
ok-injective s t e = cc

hex_pair-eq-ok :
    (a b d : ℕ)
    → hex_pair a b ≡ ok d
    → (h : ℕ) × (l : ℕ) × HexDigit a h × HexDigit b l × (d ≡ h * 16 + l)
unfolding hex_pair
hex_pair-eq-ok a b d e =
    let (h, ea, e1) = >>=-eq-ok (from_hex a) _ e in
    let (l, eb, e2) = >>=-eq-ok (from_hex b) _ e1 in
    let p = from_hex-HexDigit a h ea in
    let q = from_hex-HexDigit b l eb in
    let same = bit_or_nibbles h l (HexDigit-lt a h p) (HexDigit-lt b l q) in
    (h, l, p, q, ground arith)

push-eq-ok :
    (c : ℕ) (r : Result Bytes) (out : Bytes)
    → push c r ≡ ok out
    → (o : Bytes) × (r ≡ ok o) × (c ∷ o ≡ out)
push-eq-ok c (ok o) out e = (o, refl, cc)
push-eq-ok c (throw t) out e = cc

-- What a character other than a percent sign stands for.
abbrev literal : ℕ → ℕ
literal c = if c == b'+' then b' ' else c

unescape_url-literal :
    (c : ℕ) (s : Bytes)
    → (c == b'%') ≡ false
    → unescape_url (c ∷ s) ≡ push (literal c) (unescape_url s)
unfolding unescape_url
unescape_url-literal c [] h = rw h
unescape_url-literal c (a ∷ []) h = rw h
unescape_url-literal c (a ∷ b ∷ s) h = rw h

Encodes-literal :
    (c : ℕ) {s out : Bytes}
    → (c == b'%') ≡ false
    → Encodes s out
    → Encodes (c ∷ s) (literal c ∷ out)
Encodes-literal c h e = elim (Bool-cases (c == b'+')) [
  | inl p ↦ rw p (Encodes.space c b' ' (ground arith) refl e)
  | inr n ↦ rw n (Encodes.plain c (ground arith) (ground arith) e)
]

Encodes-push :
    (c : ℕ) (s out : Bytes)
    → (c == b'%') ≡ false
    → unescape_url (c ∷ s) ≡ ok out
    → ((o : Bytes) → unescape_url s ≡ ok o → Encodes s o)
    → Encodes (c ∷ s) out
Encodes-push c s out h e ih =
    let (o, rest, same) =
      push-eq-ok (literal c) (unescape_url s) out (rw (unescape_url-literal c s h) at e) in
    rw (← same) (Encodes-literal c h (ih o rest))

unescape_url_sound : (s out : Bytes) → unescape_url s ≡ ok out → Encodes s out
unfolding unescape_url
unescape_url_sound [] out e = rw (← ok-injective [] out e) Encodes.done
unescape_url_sound (c ∷ []) out e = elim (Bool-cases (c == b'%')) [
  | inl p ↦ absurd (ground arith)
  | inr n ↦ Encodes-push c [] out n e (unescape_url_sound [])
]
unescape_url_sound (c ∷ a ∷ []) out e = elim (Bool-cases (c == b'%')) [
  | inl p ↦ absurd (ground arith)
  | inr n ↦ Encodes-push c (a ∷ []) out n e (unescape_url_sound (a ∷ []))
]
unescape_url_sound (c ∷ a ∷ b ∷ s) out e = elim (Bool-cases (c == b'%')) [
  | inl p ↦
      let (d, pair, e1) = >>=-eq-ok (hex_pair a b) _ (rw p at e) in
      let (o, rest, same) = push-eq-ok d (unescape_url s) out e1 in
      let (h, l, x, y, eq) = hex_pair-eq-ok a b d pair in
      rw (← same) (Encodes.escape c a b d h l (ground arith) x y eq (unescape_url_sound s o rest))
  | inr n ↦ Encodes-push c (a ∷ b ∷ s) out n e (unescape_url_sound (a ∷ b ∷ s))
]

unescape_url_complete : {s out : Bytes} → Encodes s out → unescape_url s ≡ ok out
unfolding unescape_url
unescape_url_complete done = refl
unescape_url_complete (plain {s} c p q e) =
    unescape_url-literal c s (ground arith) ∙ rw (unescape_url_complete e) (ground arith)
unescape_url_complete (space {s} c d p q e) =
    unescape_url-literal c s (ground arith) ∙ rw (unescape_url_complete e) (ground arith)
unescape_url_complete (escape {s} c a b d h l p x y q e) =
    let pair = hex_pair_lem a b h l x y in
    let ih = unescape_url_complete e in ground (arith, pair, ih)

-- `unescapeUrl` returns `out` exactly when the text is a percent-encoding of `out`, in which a
-- plus sign stands for a space.
pub unescape_url_iff : (s out : Bytes) → (unescape_url s ≡ ok out) ↔ Encodes s out
unescape_url_iff s out = (unescape_url_sound s out, unescape_url_complete)
