-- ===== src/Hoymiles/MultiData/Accepted.antt =====
-- The fragments of a reply, joined.
use flux_dtu.Base.{
  ℕ, zero, suc, ◌+◌, ◌-◌, ◌*◌, ◌≤◌, ◌<◌, ◌≡◌, refl, ap, Bool, true, false, ◌&&◌, not, List, [], ◌∷◌,
  ◌++◌, Option, none, some, arith, ltb, ◌==◌, if◌then◌else◌, u8, length, take, get_or,
  length-append, append-[],
}
use flux_dtu.Hoymiles.Crc.{crc16}
use flux_dtu.Hoymiles.Fragments.{Fragment}
use flux_dtu.Hoymiles.MultiData.{
  handle_response, check_from, check_last, crc_received, answer_main_cmd, get_total_fragment_size,
  sum_from,
}

-- the payloads of `n` fragments from `i` on, joined
abbrev pub joined : (ℕ → Fragment) → (n i : ℕ) → List ℕ
joined fragment zero i = []
joined fragment (suc n) i = (fragment i).payload ++ joined fragment n (i + 1)

abbrev pub all_answers : (ℕ → Fragment) → (n i : ℕ) → Bool
all_answers fragment zero i = true
all_answers fragment (suc n) i =
    (fragment i).main_cmd == answer_main_cmd && all_answers fragment n (i + 1)

crc16-append : (xs ys : List ℕ) (c : ℕ) → crc16 (xs ++ ys) c ≡ crc16 ys (crc16 xs c)
unfolding crc16
crc16-append [] ys c = refl
crc16-append (x ∷ xs) ys c = crc16-append xs ys _

-- a joined message whose last two bytes are the checksum of the others
abbrev pub is_checked : List ℕ → (crc : ℕ) → Bool
is_checked message crc =
    crc16 (take (length message - 2) message) crc == crc_received message (length message - 2)

get_or-skip : (xs ys : List ℕ) (i : ℕ) → get_or (xs ++ ys) (length xs + i) 0 ≡ get_or ys i 0
get_or-skip [] ys i = let e : 0 + i ≡ i = omega arith in rw e refl
get_or-skip (x ∷ xs) ys i =
    let e : length (x ∷ xs) + i ≡ suc (length xs + i) = omega arith in rw e (get_or-skip xs ys i)

take-skip : (xs ys : List ℕ) (i : ℕ) → take (length xs + i) (xs ++ ys) ≡ xs ++ take i ys
take-skip [] ys i = let e : 0 + i ≡ i = omega arith in rw e refl
take-skip (x ∷ xs) ys i =
    let e : length (x ∷ xs) + i ≡ suc (length xs + i) = omega arith in
    rw e (ap (λ zs. x ∷ zs) (take-skip xs ys i))

is_checked-append :
    (xs ys : List ℕ) (c : ℕ) → 2 ≤ length ys → is_checked (xs ++ ys) c ≡ is_checked ys (crc16 xs c)
unfolding crc_received
is_checked-append xs ys c h =
    let e : length (xs ++ ys) - 2 ≡ length xs + (length ys - 2) =
      omega (arith, length-append xs ys) in
    let next : length xs + (length ys - 2) + 1 ≡ length xs + (length ys - 2 + 1) = omega arith in
    rw
      (
        e,
        next,
        take-skip xs ys (length ys - 2),
        crc16-append xs (take (length ys - 2) ys) c,
        get_or-skip xs ys (length ys - 2),
        get_or-skip xs ys (length ys - 2 + 1),
      )
      refl

-- the last of `suc n` fragments from `i` on
abbrev pub last_of : (ℕ → Fragment) → (n i : ℕ) → Fragment
last_of fragment zero i = fragment i
last_of fragment (suc n) i = last_of fragment n (i + 1)

length_last :
    (fragment : ℕ → Fragment) (n i : ℕ)
    → length (last_of fragment n i).payload ≤ length (joined fragment (suc n) i)
length_last fragment zero i = ground (arith, length-append (fragment i).payload [])
length_last fragment (suc n) i = ground (
  arith,
  length-append (fragment i).payload (joined fragment (suc n) (i + 1)),
  length_last fragment n (i + 1),
)

-- what the loop answers, of the joined payloads
abbrev pub answer_of : (ℕ → Fragment) → (n i crc : ℕ) → Option Bool
answer_of fragment n i crc =
    if not (all_answers fragment (suc n) i)
    then some false
    else if ltb (length (last_of fragment n i).payload) 2
    then none
    else some (is_checked (joined fragment (suc n) i) crc)

check_from-eq-answer_of :
    (fragment : ℕ → Fragment) (n i crc : ℕ)
    → check_from fragment (suc n) i crc ≡ answer_of fragment n i crc
unfolding check_from check_last
check_from-eq-answer_of fragment zero i crc = rw (append-[] (fragment i).payload) (ground arith)
check_from-eq-answer_of fragment (suc n) i crc = ground (
  arith,
  check_from-eq-answer_of fragment n (i + 1) (crc16 (fragment i).payload crc),
  length_last fragment n (i + 1),
  is_checked-append (fragment i).payload (joined fragment (suc n) (i + 1)) crc,
)

-- Of a reply of one fragment or more: it is refused if a fragment does not answer the command. Else,
-- if its last fragment has fewer than two bytes, memory outside of the fragment is read. Else it is
-- accepted exactly if the last two bytes of all payloads joined are the checksum of the others.
pub handle_response-eq-answer_of :
    (fragment : ℕ → Fragment) (n : ℕ)
    → handle_response fragment (suc n) ≡ answer_of fragment n 0 65_535
unfolding handle_response
handle_response-eq-answer_of fragment n = check_from-eq-answer_of fragment n 0 65_535

-- every payload fits a packet of 32 bytes
abbrev pub AllShort : (ℕ → Fragment) → Type 0
AllShort fragment = (k : ℕ) → length (fragment k).payload ≤ 21

sum_from_lem :
    (fragment : ℕ → Fragment) (n i sum : ℕ)
    → AllShort fragment
    → sum + 21 * n < 256
    → sum_from fragment n i sum ≡ sum + length (joined fragment n i)
unfolding sum_from
sum_from_lem fragment zero i sum h p = omega arith
sum_from_lem fragment (suc n) i sum h p =
    let e : u8 (sum + length (fragment i).payload) ≡ sum + length (fragment i).payload =
      omega (arith, h i) in
    rw e (
      omega (
        arith,
        sum_from_lem fragment n (i + 1) (sum + length (fragment i).payload) h (omega (arith, h i)),
        length-append (fragment i).payload (joined fragment n (i + 1)),
      ))

length-joined :
    (fragment : ℕ → Fragment) (n i : ℕ) → AllShort fragment → length (joined fragment n i) ≤ 21 * n
length-joined fragment zero i h = omega arith
length-joined fragment (suc n) i h = omega (
  arith,
  h i,
  length-append (fragment i).payload (joined fragment n (i + 1)),
  length-joined fragment n (i + 1) h,
)

-- The size of a reply does not overflow its eight bits: for the twelve fragments that there can be
-- at most, with payloads that fit a packet, it is the number of bytes of all payloads joined.
pub get_total_fragment_size_lem :
    (fragment : ℕ → Fragment) (n : ℕ)
    → AllShort fragment
    → n ≤ 12
    → (get_total_fragment_size fragment n ≡ length (joined fragment n 0))
      × (get_total_fragment_size fragment n ≤ 252)
unfolding get_total_fragment_size
get_total_fragment_size_lem fragment n h p =
    let e = sum_from_lem fragment n 0 0 h (omega arith) in
    (omega (arith, e), omega (arith, e, length-joined fragment n 0 h))
