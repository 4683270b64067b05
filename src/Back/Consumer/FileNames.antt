-- ===== src/Back/Consumer/FileNames.antt =====
-- The name of a chunk's file: two padded ids with a `-` between them.
use gateway_poc.Base.{
  ℕ, ◌-◌, ◌^◌, ◌<◌, ◌≤◌, ◌≡◌, refl, ap, ◌∙◌, List, [], ◌∷◌, ◌++◌, min, max, drop, All, arith,
}
use mathlib.Core.List.{append-nil}
use gateway_poc.Base.Bytes.{Bytes}
use gateway_poc.Base.Decimal.{to_string, pad, read_digits, read-pad}
use gateway_poc.Back.Message.{Message}
use gateway_poc.Back.Consumer.{id_range, file_name}

-- The two numbers of a name, read by the loops that read the ids of Redis.
abbrev pub read_name : Bytes → ℕ × ℕ
read_name s =
    let (lo, stopped) = read_digits 0 s in
    let (hi, end) = read_digits 0 (drop 1 stopped) in (lo, hi)

read-name :
    (lo hi : ℕ)
    → lo < 2 ^ 64
    → hi < 2 ^ 64
    → read_name (pad 19 (to_string lo) ++ (b'-' ∷ pad 19 (to_string hi))) ≡ (lo, hi)
read-name lo hi l h =
    let first = read-pad 19 lo (b'-' ∷ pad 19 (to_string hi)) l refl in
    let second = rw (append-nil (pad 19 (to_string hi))) at (read-pad 19 hi [] h tt) in
    rw (first, second)

abbrev pub Fits : Message → Type 0
Fits m = m.id < 2 ^ 64

abbrev pub smallest : ℕ → List Message → ℕ
smallest n [] = n
smallest n (m ∷ ms) = smallest (min n m.id) ms

abbrev pub last_id : ℕ → List Message → ℕ
last_id n [] = n
last_id n (m ∷ ms) = last_id m.id ms

-- `maxId` compares with `minId`, so it forgets the ids before: it ends as the last id.
id_range_lem : (lo hi : ℕ) (ms : List Message) → id_range lo hi ms ≡ (smallest lo ms, last_id hi ms)
unfolding id_range
id_range_lem lo hi [] = refl
id_range_lem lo hi (m ∷ ms) =
    let last : max (min lo m.id) m.id ≡ m.id = omega arith in
    rw last (id_range_lem (min lo m.id) m.id ms)

smallest-le : (n : ℕ) (ms : List Message) → (smallest n ms ≤ n) × All (λ m. smallest n ms ≤ m.id) ms
smallest-le n [] = (omega arith, tt)
smallest-le n (m ∷ ms) =
    let (le, rest) = smallest-le (min n m.id) ms in (omega arith, (omega arith, rest))

last_id-Fits : (n : ℕ) (ms : List Message) → n < 2 ^ 64 → All Fits ms → last_id n ms < 2 ^ 64
last_id-Fits n [] h f = h
last_id-Fits n (m ∷ ms) h f = last_id-Fits m.id ms f.0 f.1

-- The name of a chunk whose ids fit in 64 bits is read back as its smallest id, which no id of it
-- is below, and the id of its last message.
pub read_name-file_name :
    (m : Message) (ms : List Message)
    → All Fits (m ∷ ms)
    → (read_name (file_name (m ∷ ms)) ≡ (smallest (2 ^ 64 - 1) (m ∷ ms), last_id m.id ms))
      × All (λ k. smallest (2 ^ 64 - 1) (m ∷ ms) ≤ k.id) (m ∷ ms)
unfolding file_name
read_name-file_name m ms f =
    let (le, below) = smallest-le (2 ^ 64 - 1) (m ∷ ms) in
    let lo = smallest (2 ^ 64 - 1) (m ∷ ms) in
    let named : read_name (file_name (m ∷ ms))
        ≡ read_name (pad 19 (to_string lo) ++ (b'-' ∷ pad 19 (to_string (last_id m.id ms)))) =
      rw (id_range_lem (2 ^ 64 - 1) 0 (m ∷ ms)) in
    (named ∙ read-name lo (last_id m.id ms) (omega arith) (last_id-Fits m.id ms f.0 f.1), below)

-- The ids do not fall along the list.
abbrev pub Ascending : ℕ → List Message → Type 0
Ascending n [] = Unit {0}
Ascending n (m ∷ ms) = (n ≤ m.id) × Ascending m.id ms

le-last_id :
    (n : ℕ) (ms : List Message)
    → Ascending n ms
    → (n ≤ last_id n ms) × All (λ m. m.id ≤ last_id n ms) ms
le-last_id n [] a = (omega arith, tt)
le-last_id n (m ∷ ms) a = let (le, rest) = le-last_id m.id ms a.1 in (omega arith, (le, rest))

above-Ascending : (n k : ℕ) (ms : List Message) → n ≤ k → Ascending k ms → All (λ m. n ≤ m.id) ms
above-Ascending n k [] h a = tt
above-Ascending n k (m ∷ ms) h a = (omega arith, above-Ascending n m.id ms (omega arith) a.1)

smallest_of_above : (n : ℕ) (ms : List Message) → All (λ m. n ≤ m.id) ms → smallest n ms ≡ n
smallest_of_above n [] a = refl
smallest_of_above n (m ∷ ms) a =
    let first : min n m.id ≡ n = omega arith in rw first (smallest_of_above n ms a.1)

All-both :
    (P Q : Message → Type 0) (ms : List Message) → All P ms → All Q ms → All (λ m. P m × Q m) ms
All-both P Q [] p q = tt
All-both P Q (m ∷ ms) p q = ((p.0, q.0), All-both P Q ms p.1 q.1)

-- A chunk in the order of its ids, which fit in 64 bits, is named by its first and its last id, and
-- every id of it lies between the two.
pub file_name-Ascending :
    (m : Message) (ms : List Message)
    → All Fits (m ∷ ms)
    → Ascending m.id ms
    → (read_name (file_name (m ∷ ms)) ≡ (m.id, last_id m.id ms))
      × All (λ k. (m.id ≤ k.id) × (k.id ≤ last_id m.id ms)) ms
file_name-Ascending m ms f a =
    let above = above-Ascending m.id m.id ms (omega arith) a in
    let start : min (2 ^ 64 - 1) m.id ≡ m.id = omega arith in
    let least : smallest (2 ^ 64 - 1) (m ∷ ms) ≡ m.id =
      ap (λ (n : ℕ). smallest n ms) start ∙ smallest_of_above m.id ms above in
    (
      (read_name-file_name m ms f).0 ∙ ap (λ (n : ℕ). (n, last_id m.id ms)) least,
      All-both (λ k. m.id ≤ k.id) (λ k. k.id ≤ last_id m.id ms) ms above (le-last_id m.id ms a).1,
    )

last_id-append : (n : ℕ) (ms : List Message) (k : Message) → last_id n (ms ++ (k ∷ [])) ≡ k.id
last_id-append n [] k = refl
last_id-append n (m ∷ ms) k = last_id-append m.id ms k

-- Where the last message of a chunk has a smaller id than the first, and the ids fit in 64 bits,
-- the second number of the name is below that first id: it is not the largest id of the chunk.
pub file_name_understates :
    (m k : Message) (between : List Message)
    → All Fits (m ∷ (between ++ (k ∷ [])))
    → k.id < m.id
    → (read_name (file_name (m ∷ (between ++ (k ∷ []))))).1 < m.id
file_name_understates m k between f less = omega (
  arith,
  ap (λ (r : ℕ × ℕ). r.1) (read_name-file_name m (between ++ (k ∷ [])) f).0,
  last_id-append m.id between k,
)
