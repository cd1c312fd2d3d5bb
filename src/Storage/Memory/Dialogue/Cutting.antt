-- ===== src/Storage/Memory/Dialogue/Cutting.antt =====
-- Where `truncate_utf8` of src/storage/memory/dialogue.rs cuts.
use riddle.Prelude.{
  ℕ, ◌-◌, ◌≤◌, ◌≡◌, refl, sym, ap, true, Option, none, some, [], ◌∷◌, ◌++◌, leb, zero, suc, arith,
  Bool-cases, inl, inr, append_nil,
}
use riddle.Text.{Text, byte_len, len_utf8, split_bytes, cons_front}
use riddle.Storage.Memory.Dialogue.{front_or, cut, truncate_utf8}

-- `front` begins `s` and has at most `n` bytes.
abbrev pub IsFront : ℕ → Text → Text → Type 0
IsFront n s front = (byte_len front ≤ n) × (rest : Text) × (s ≡ front ++ rest)

abbrev Parts : ℕ → Text → Option (Text × Text) → Type 0
Parts n s none = Unit
Parts n s (some (front, rest)) = (byte_len front ≡ n) × (s ≡ front ++ rest)

cons_front-Parts :
    (n c : ℕ) (s : Text) (o : Option (Text × Text))
    → len_utf8 c ≤ n
    → Parts (n - len_utf8 c) s o
    → Parts n (c ∷ s) (cons_front c o)
unfolding byte_len
cons_front-Parts n c s none h p = tt
cons_front-Parts n c s (some (front, rest)) h (b, e) = (omega arith, ap (λ t. c ∷ t) e)

split_bytes-Parts : (n : ℕ) (s : Text) → Parts n s (split_bytes n s)
unfolding split_bytes
split_bytes-Parts zero s = (unfold byte_len in refl, refl)
split_bytes-Parts (suc n) [] = tt
split_bytes-Parts (suc n) (c ∷ s) = elim (Bool-cases (leb (len_utf8 c) (suc n))) [
  | inl h ↦
      rw h
        (cons_front-Parts (suc n) c s _ (ground arith) (split_bytes-Parts (suc n - len_utf8 c) s))
  | inr h ↦ rw h tt
]

front_or-IsFront :
    (n : ℕ) (s otherwise : Text) (o : Option (Text × Text))
    → IsFront n s otherwise
    → Parts (suc n) s o
    → IsFront (suc n) s (front_or otherwise o)
front_or-IsFront n s otherwise none h p = (omega (arith, h.0), h.1, h.2)
front_or-IsFront n s otherwise (some (front, rest)) h p = (omega (arith, p.0), rest, p.1)

cut-IsFront : (n : ℕ) (s : Text) → IsFront n s (cut n s)
unfolding cut
cut-IsFront zero s = (unfold byte_len in omega arith, s, refl)
cut-IsFront (suc n) s =
    front_or-IsFront n s (cut n s) (split_bytes (suc n) s) (cut-IsFront n s)
      (split_bytes-Parts (suc n) s)

len_utf8_positive : (c : ℕ) → 1 ≤ len_utf8 c
unfolding len_utf8
len_utf8_positive c = ground arith

-- A boundary is found where a front ends.
split_bytes-append :
    (n : ℕ) (front rest : Text)
    → byte_len front ≡ n
    → split_bytes n (front ++ rest) ≡ some (front, rest)
unfolding split_bytes byte_len
split_bytes-append zero [] rest h = refl
split_bytes-append zero (c ∷ front) rest h = absurd (omega (arith, len_utf8_positive c))
split_bytes-append (suc n) [] rest h = absurd (omega arith)
split_bytes-append (suc n) (c ∷ front) rest h =
    let fits : leb (len_utf8 c) (suc n) ≡ true = ground arith in
    let found = split_bytes-append (suc n - len_utf8 c) front rest (omega arith) in
    rw (fits, found) refl

front_or-longest :
    (n k : ℕ) (s otherwise : Text) (o : Option (Text × Text))
    → k ≤ n
    → k ≤ byte_len otherwise
    → Parts (suc n) s o
    → k ≤ byte_len (front_or otherwise o)
front_or-longest n k s otherwise none h b p = b
front_or-longest n k s otherwise (some (front, rest)) h b p = omega (arith, p.0)

cut-longest :
    (n : ℕ) (front rest : Text)
    → byte_len front ≤ n
    → byte_len front ≤ byte_len (cut n (front ++ rest))
unfolding cut
cut-longest zero front rest h = omega arith
cut-longest (suc n) front rest h = elim (Bool-cases (leb (byte_len front) n)) [
  | inl shorter ↦
      front_or-longest n (byte_len front) (front ++ rest) (cut n (front ++ rest)) _ (ground arith)
        (cut-longest n front rest (ground arith)) (split_bytes-Parts (suc n) (front ++ rest))
  | inr same ↦
      let e : byte_len front ≡ suc n = ground arith in
      rw (split_bytes-append (suc n) front rest e) (omega arith)
]

byte_len-front : (s t : Text) → byte_len s ≤ byte_len (s ++ t)
unfolding byte_len
byte_len-front [] t = omega arith
byte_len-front (c ∷ s) t = omega (arith, byte_len-front s t)

-- What `truncate_utf8` returns begins the text and has at most `maximum` bytes.
pub truncate_utf8-IsFront :
    (value : Text) (maximum : ℕ) → IsFront maximum value (truncate_utf8 value maximum)
unfolding truncate_utf8
truncate_utf8-IsFront value maximum = elim (Bool-cases (leb (byte_len value) maximum)) [
  | inl fits ↦ rw fits (ground arith, [], sym (append_nil value))
  | inr long ↦ rw long (cut-IsFront maximum value)
]

truncate_utf8-longest :
    (maximum : ℕ) (front rest : Text)
    → byte_len front ≤ maximum
    → byte_len front ≤ byte_len (truncate_utf8 (front ++ rest) maximum)
unfolding truncate_utf8
truncate_utf8-longest maximum front rest h =
    elim (Bool-cases (leb (byte_len (front ++ rest)) maximum)) [
      | inl fits ↦ rw fits (byte_len-front front rest)
      | inr long ↦ rw long (cut-longest maximum front rest h)
    ]

-- `truncate_utf8` cuts between two characters, as late as the limit allows: its result begins the
-- text and has at most `maximum` bytes, and whatever begins the text and has at most `maximum` bytes
-- is no longer than it.
pub truncate_utf8_longest :
    (value : Text) (maximum : ℕ) (front : Text)
    → IsFront maximum value front
    → IsFront maximum value (truncate_utf8 value maximum)
      × (byte_len front ≤ byte_len (truncate_utf8 value maximum))
truncate_utf8_longest value maximum front h =
    (truncate_utf8-IsFront value maximum, rw h.2 (truncate_utf8-longest maximum front h.1 h.0))
