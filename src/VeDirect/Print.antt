-- ===== src/VeDirect/Print.antt =====
-- What a device sends: the records of a frame as text.
use flux_dtu.Base.{
  ℕ, ◌+◌, ◌≡◌, refl, arith, Bool, true, false, ◌&&◌, not, List, [], ◌∷◌, ◌++◌, ltb, leb, ◌==◌,
  if◌then◌else◌, u8, length, codes, same_text,
}
use flux_dtu.VeDirect.{TextData, toupper}

abbrev pub upper : List ℕ → List ℕ
upper [] = []
upper (b ∷ bs) = toupper b ∷ upper bs

pub length-upper : (xs : List ℕ) → length (upper xs) ≡ length xs
length-upper [] = refl
length-upper (x ∷ xs) = omega (arith, length-upper xs)

-- a character that is part of a text
abbrev pub is_plain : ℕ → Bool
is_plain b = leb 32 b && ltb b 128 && not (b == 58)

abbrev pub all_plain : List ℕ → Bool
all_plain [] = true
all_plain (b ∷ bs) = is_plain b && all_plain bs

-- what is read of the characters of a name behind its first: no number signs, and capital letters
abbrev pub kept : List ℕ → List ℕ
kept [] = []
kept (b ∷ bs) = if b == 35 then kept bs else (toupper b ∷ kept bs)

-- A record as the protocol has it: a name of 1 to 32 characters that is not the checksum's, number
-- signs not counted, and a value of at most 32.
pub record IsField (first : ℕ) (name value : List ℕ) : Type 0 where
  pub first_plain : is_plain first ≡ true
  pub name_plain : all_plain name ≡ true
  pub name_short : ltb (length (kept name)) 32 ≡ true
  pub not_checksum : same_text (toupper first ∷ kept name) (codes "CHECKSUM") ≡ false
  pub value_plain : all_plain value ≡ true
  pub value_short : ltb (length value) 33 ≡ true

pub data Fields : Type 0 where
  no_fields : Fields
  field : (first : ℕ) (name value : List ℕ) → IsField first name value → Fields → Fields

-- the records, each with the end of its line
abbrev pub print_fields : Fields → List ℕ
print_fields no_fields = []
print_fields (field first name value p fs) =
    first ∷ (name ++ 9 ∷ (value ++ 13 ∷ 10 ∷ print_fields fs))

-- a frame up to its checksum byte
abbrev pub print_body : Fields → List ℕ
print_body fs = 13 ∷ 10 ∷ (print_fields fs ++ codes "Checksum\t")

-- the records as they are read: the values in capital letters too
abbrev pub records : Fields → List TextData
records no_fields = []
records (field first name value p fs) =
    record { name = toupper first ∷ kept name; value = upper value } ∷ records fs

-- the sum of all bytes, in eight bits
abbrev pub sum_up : (sum : ℕ) → List ℕ → ℕ
sum_up sum [] = sum
sum_up sum (b ∷ bs) = sum_up (u8 (sum + b)) bs
