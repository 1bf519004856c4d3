-- ===== src/Machine.antt =====
-- What the functions of the program act on: the output, the blocks of the heap, and the buffers
-- that packets point to. An access outside a buffer, a dereference of NULL, a `free` of a block
-- that is not live, a loop that runs out of rounds and `exit(EXIT_FAILURE)` are faults: nothing runs
-- after them. `malloc` is taken to succeed.
pub mod Reads
pub mod Rules
use open_sniffer.Base.{
  ℕ, ◌+◌, ◌*◌, ◌/◌, ◌%◌, ◌^◌, String, Bool, true, false, Option, none, some, List, [], ◌∷◌, ◌++◌,
  Bytes, length, get_elem?, take, drop, ltb, ◌==◌, if◌then◌else◌,
}

pub data Fault : Type 0 where
  out_of_bounds null_pointer bad_free out_of_fuel exit_failure : Fault

pub data Result {ℓ} (A : Type ℓ) : Type ℓ where
  ok : A → Result A
  fault : Fault → Result A

-- An argument of `printf`: a number, computed bytes, a literal, or a NULL given to `%s`.
pub data Arg : Type 0 where
  int : ℕ → Arg
  text : Bytes → Arg
  str : String → Arg
  null_str : Arg

-- One call of `printf`.
pub record Print : Type 0 where
  pub format : String
  pub args : List Arg

-- `live` holds the addresses of the blocks in use, the youngest first; `next` is not used yet.
pub record World : Type 0 where
  pub output : List Print
  pub live : List ℕ
  pub next : ℕ

abbrev pub M {ℓ} : Type ℓ → Type ℓ
M A = World → Result (A × World)

abbrev pub and_then {ℓ κ} : {A : Type ℓ} {B : Type κ} → Result A → (A → Result B) → Result B
and_then (ok a) f = f a
and_then (fault e) f = fault e

module _ {ℓ κ} {A : Type ℓ} {B : Type κ} where
  infixl 5 ◌>>=◌
  unfoldable pub ◌>>=◌ : M A → (A → M B) → M B
  m >>= f = λ w. and_then (m w) (λ (a, v). f a v)

infixl 5 ◌>>◌
unfoldable pub ◌>>◌ {κ} : {B : Type κ} → M (Unit {0}) → M B → M B
unfolding ◌>>=◌
m >> n = m >>= λ _. n

module _ {ℓ} {A : Type ℓ} where
  unfoldable pub ret : A → M A
  ret a w = ok (a, w)

  -- A computation that touches neither the output nor the heap.
  unfoldable pub lift : Result A → M A
  lift r w = and_then r (λ a. ok (a, w))

unfoldable pub printf : String → List Arg → M (Unit {0})
printf f args w = ok (tt, record w { output = w.output ++ record { format = f; args = args } ∷ [] })

-- The names to unfold where a computation is to be run.
unfoldable pub run : Unit {0}
unfolding ◌>>=◌ ◌>>◌ ret lift printf
run = tt

-- `malloc`: a block that was not in use.
unfoldable pub malloc : M ℕ
malloc w = ok (w.next, record w { live = w.next ∷ w.live; next = w.next + 1 })

unfoldable pub remove_block : ℕ → List ℕ → Option (List ℕ)
remove_block a [] = none
remove_block a (b ∷ l) = if a == b then some l else keep b (remove_block a l)
  where
    keep : ℕ → Option (List ℕ) → Option (List ℕ)
    keep b none = none
    keep b (some l) = some (b ∷ l)

unfoldable pub free_live : Option (List ℕ) → M (Unit {0})
free_live none w = fault bad_free
free_live (some l) w = ok (tt, record w { live = l })

-- `free`: nothing at NULL, a fault at a block that is not live.
unfoldable pub free : Option ℕ → M (Unit {0})
unfolding free_live remove_block
free none w = ok (tt, w)
free (some a) w = free_live (remove_block a w.live) w

-- An allocated array of bytes and its address.
pub record Buffer : Type 0 where
  pub addr : ℕ
  pub bytes : Bytes

unfoldable pub in_range {ℓ} : {A : Type ℓ} → Option A → Result A
in_range none = fault out_of_bounds
in_range (some a) = ok a

-- `*(uint8_t*)(b + i)`
unfoldable pub byte_at : Buffer → ℕ → Result ℕ
unfolding in_range
byte_at b i = in_range (get_elem? b.bytes i)

-- A `uint16_t` and a `uint32_t` as a little-endian machine loads them.
unfoldable pub le16 : Buffer → ℕ → Result ℕ
unfolding byte_at
le16 b i = and_then (byte_at b i) (λ x. and_then (byte_at b (i + 1)) (λ y. ok (x + 2 ^ 8 * y)))

unfoldable pub le32 : Buffer → ℕ → Result ℕ
unfolding le16
le32 b i = and_then (le16 b i) (λ x. and_then (le16 b (i + 2)) (λ y. ok (x + 2 ^ 16 * y)))

-- The `n` bytes from `b + i` on, as `memcpy` reads them.
unfoldable pub bytes_at : Buffer → ℕ → ℕ → Result Bytes
bytes_at b i n =
    if ltb (length b.bytes) (i + n) then fault out_of_bounds else ok (take n (drop i b.bytes))

-- `memcpy` and `memset` into a buffer, from `b + i` on.
unfoldable pub store : Buffer → ℕ → Bytes → Result Buffer
store b i xs =
    if ltb (length b.bytes) (i + length xs)
    then fault out_of_bounds
    else ok (record b { bytes = take i b.bytes ++ (xs ++ drop (i + length xs) b.bytes) })

-- The bytes of a `uint16_t` as a little-endian machine stores them.
abbrev pub bytes16 : ℕ → Bytes
bytes16 x = x % 256 ∷ x / 256 % 256 ∷ []
