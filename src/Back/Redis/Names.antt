-- ===== src/Back/Redis/Names.antt =====
-- Ids of messages and names of stream entries, `<milliseconds>-<sequence>`.
use Prim.Native.Nat.{bit_or, bit_and}
use gateway_poc.Base.{
  ℕ, ◌+◌, ◌-◌, ◌*◌, ◌/◌, ◌%◌, ◌^◌, ◌<◌, ◌≡◌, refl, sym, ap, ◌∙◌, ◌≢◌, ◌⊎◌, List, [], ◌∷◌, ◌++◌, All,
  All-append, arith,
}
use mathlib.Core.List.{append-nil}
use gateway_poc.Base.Bits.{bit_or-shift, bit_or-zero, bit_or-one, bit_and-mask}
use gateway_poc.Base.Bytes.{Bytes, codes}
use gateway_poc.Base.Decimal.{to_string, read-to_string, IsDigit, to_string-IsDigit}
use gateway_poc.Back.Message.{Message}
use gateway_poc.Back.Redis.{pack_id, message_id, entry_of_id, xdel_arguments, make_xdel_command}

-- The name that Redis gives an entry.
abbrev pub entry_name : ℕ → ℕ → Bytes
entry_name ts seq = to_string ts ++ (b'-' ∷ to_string seq)

-- Both loops read what Redis printed.
pub message_id-entry_name :
    (ts seq : ℕ) → ts < 2 ^ 64 → seq < 2 ^ 64 → message_id (entry_name ts seq) ≡ pack_id ts seq
unfolding message_id
message_id-entry_name ts seq t s =
    let first = read-to_string ts (b'-' ∷ to_string seq) t refl in
    let second = rw (append-nil (to_string seq)) at (read-to_string seq [] s tt) in
    rw (first, second)

pub pack_id-fields : (ts seq : ℕ) → ts < 2 ^ 42 → seq < 2 ^ 22 → pack_id ts seq ≡ ts * 2 ^ 22 + seq
unfolding pack_id
pack_id-fields ts seq t s =
    let fits : (ts * 2 ^ 22) % 2 ^ 64 ≡ ts * 2 ^ 22 = omega arith in
    let zeros : 0 * 2 ^ 22 + seq ≡ seq = omega arith in
    omega (
      arith,
      ap (λ (x : ℕ). bit_or x seq) fits,
      ap (λ (x : ℕ). bit_or (ts * 2 ^ 22) x) zeros,
      bit_or-shift 22 ts 0 seq s,
      bit_or-zero ts,
    )

pub entry_of_id-fields :
    (ts seq : ℕ) → seq < 2 ^ 22 → entry_of_id (ts * 2 ^ 22 + seq) ≡ entry_name ts seq
unfolding entry_of_id
entry_of_id-fields ts seq s =
    let time : (ts * 2 ^ 22 + seq) / 2 ^ 22 ≡ ts = omega arith in
    rw (time, bit_and-mask 22 ts seq s)

-- Within 42 bits of time and 22 bits of sequence, the name written from an id is the name that
-- the id was read from: `XDEL` is given the entries that were read.
pub entry_of_id-message_id :
    (ts seq : ℕ)
    → ts < 2 ^ 42
    → seq < 2 ^ 22
    → entry_of_id (message_id (entry_name ts seq)) ≡ entry_name ts seq
entry_of_id-message_id ts seq t s =
    ap entry_of_id
      (message_id-entry_name ts seq (omega arith) (omega arith) ∙ pack_id-fields ts seq t s)
    ∙ entry_of_id-fields ts seq s

-- Within 42 bits of time and 22 bits of sequence the ids are ordered as the entries are: an entry
-- that is earlier by time, or by sequence at the same time, has the smaller id.
pub message_id_lt :
    (ts seq ts' seq' : ℕ)
    → ts < 2 ^ 42
    → seq < 2 ^ 22
    → ts' < 2 ^ 42
    → seq' < 2 ^ 22
    → (ts < ts') ⊎ ((ts ≡ ts') × (seq < seq'))
    → message_id (entry_name ts seq) < message_id (entry_name ts' seq')
message_id_lt ts seq ts' seq' t s t' s' less = omega (
  arith,
  message_id-entry_name ts seq (omega arith) (omega arith),
  message_id-entry_name ts' seq' (omega arith) (omega arith),
  pack_id-fields ts seq t s,
  pack_id-fields ts' seq' t' s',
)

pack_id-overflow :
    (half r : ℕ)
    → 2 * half + 1 < 2 ^ 42
    → r < 2 ^ 22
    → pack_id (2 * half) (2 ^ 22 + r) ≡ (2 * half + 1) * 2 ^ 22 + r
unfolding pack_id
pack_id-overflow half r t s =
    let fits : (2 * half * 2 ^ 22) % 2 ^ 64 ≡ 2 * half * 2 ^ 22 = omega arith in
    let carried : 1 * 2 ^ 22 + r ≡ 2 ^ 22 + r = omega arith in
    omega (
      arith,
      ap (λ (x : ℕ). bit_or x (2 ^ 22 + r)) fits,
      ap (λ (x : ℕ). bit_or (2 * half * 2 ^ 22) x) carried,
      bit_or-shift 22 (2 * half) 1 r s,
      bit_or-one half,
    )

-- From a sequence of 2^22, below twice that, the two parts of an id run into each other: an entry
-- with an even time of 42 bits has the id of another entry, one millisecond later, and its id is
-- written as that other's name.
pub message_id_alias :
    (half r : ℕ)
    → 2 * half + 1 < 2 ^ 42
    → r < 2 ^ 22
    → (message_id (entry_name (2 * half) (2 ^ 22 + r)) ≡ message_id (entry_name (2 * half + 1) r))
      × (entry_of_id (message_id (entry_name (2 * half) (2 ^ 22 + r)))
          ≡ entry_name (2 * half + 1) r)
message_id_alias half r t s =
    let same =
      message_id-entry_name (2 * half) (2 ^ 22 + r) (omega arith) (omega arith)
      ∙ pack_id-overflow half r t s
      ∙ sym (pack_id-fields (2 * half + 1) r t s)
      ∙ sym (message_id-entry_name (2 * half + 1) r (omega arith) (omega arith)) in
    (same, ap entry_of_id same ∙ entry_of_id-message_id (2 * half + 1) r t s)

abbrev pub Plain : ℕ → Type 0
Plain c = c ≢ b'%'

digits-Plain : (s : Bytes) → All IsDigit s → All Plain s
digits-Plain [] h = tt
digits-Plain (c ∷ s) h = (omega arith, digits-Plain s h.1)

entry_of_id-Plain : (id : ℕ) → All Plain (entry_of_id id)
unfolding entry_of_id
entry_of_id-Plain id =
    All-append Plain _ _ (digits-Plain _ (to_string-IsDigit (id / 2 ^ 22)))
      (omega arith, digits-Plain _ (to_string-IsDigit (bit_and id (2 ^ 22 - 1))))

xdel_arguments-Plain : (messages : List Message) → All Plain (xdel_arguments messages)
unfolding xdel_arguments
xdel_arguments-Plain [] = tt
xdel_arguments-Plain (m ∷ messages) = (
  omega arith,
  All-append Plain (entry_of_id m.id) (xdel_arguments messages) (entry_of_id-Plain m.id)
      (xdel_arguments-Plain messages),
)

-- No byte of the command is a `%`, whatever messages it names.
pub make_xdel_command-Plain : (messages : List Message) → All Plain (make_xdel_command messages)
unfolding make_xdel_command
make_xdel_command-Plain messages =
    All-append Plain (codes "XDEL messages") (xdel_arguments messages) (omega arith)
      (xdel_arguments-Plain messages)
