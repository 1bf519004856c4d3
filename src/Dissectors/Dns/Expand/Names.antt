-- ===== src/Dissectors/Dns/Expand/Names.antt =====
-- src/dissectors/dns/dns.c: the names that `dn_expand` is given, as a relation between the bytes of a
-- packet and the labels of a name.
use mathlib.Core.List.{append-nil, append_assoc}
use open_sniffer.Base.{
  ℕ, suc, ◌+◌, ◌*◌, ◌%◌, ◌≡◌, ◌≢◌, refl, ◌≤◌, ◌<◌, List, [], ◌∷◌, ◌++◌, Bytes, take, drop, length,
  length-append, arith,
}
use open_sniffer.Base.Words.{bits}
use open_sniffer.Machine.{ok, byte_at}
use open_sniffer.Dissectors.Dns.Expand.{Args, dest_limit}

module _ (c : Args) where
  -- At `p` stands a label of `x` bytes, with more of the packet after it.
  pub record IsLabel (p x : ℕ) : Type 0 where
    pub byte_is : byte_at c.buffer p ≡ ok x
    pub is_plain : bits x 6 2 ≡ 0
    pub not_root : x ≢ 0
    pub inside : p + 1 + x < c.end

  -- At `p` stands a compression pointer to `q`.
  pub record IsPointer (p q : ℕ) : Type 0 where
    pub high : ℕ
    pub low : ℕ
    pub byte_is : byte_at c.buffer p ≡ ok high
    pub is_marked : bits high 6 2 ≢ 0
    pub has_next : p + 1 ≢ c.end
    pub next_is : byte_at c.buffer (p + 1) ≡ ok low
    pub target_is : q ≡ c.base + (high % 64 * 256 + low)
    pub inside : q < c.end

  -- The bytes of a label.
  abbrev pub label_at : ℕ → ℕ → Bytes
  label_at p x = take x (drop (p + 1) c.buffer.bytes)

  -- The name at `p` has these labels and ends before `e` where it stands; it is read in `k` steps, each
  -- of which takes a label or follows a pointer.
  pub data Name : ℕ → ℕ → List Bytes → ℕ → Type 0 where
    root : {p e : ℕ} → byte_at c.buffer p ≡ ok 0 → e ≡ p + 1 → Name 0 p [] e
    labelled :
        {k p e : ℕ} {labels : List Bytes} (x : ℕ)
        → IsLabel p x
        → Name k (p + 1 + x) labels e
        → Name (suc k) p (label_at p x ∷ labels) e
    pointed :
        {k p q e e' : ℕ} {labels : List Bytes}
        → IsPointer p q
        → Name k q labels e'
        → e ≡ p + 2
        → Name (suc k) p labels e

-- The labels with a dot before each.
abbrev pub dotted : List Bytes → Bytes
dotted [] = []
dotted (l ∷ labels) = b'.' ∷ (l ++ dotted labels)

-- The labels with dots between them.
abbrev pub text_of : List Bytes → Bytes
text_of [] = []
text_of (l ∷ labels) = l ++ dotted labels

-- The argument list of `dn_expand` holds a name whose length is `n` where it stands and whose text is
-- `text`: the text leaves room for the final 0, and two times its steps are less than the size of
-- the packet.
pub record Expands (c : Args) (n : ℕ) (text : Bytes) : Type 0 where
  pub steps : ℕ
  pub labels : List Bytes
  pub stop : ℕ
  pub name : Name c steps c.src labels stop
  pub length_is : c.src + n ≡ stop
  pub text_is : text ≡ text_of labels
  pub fits : length text < dest_limit c
  pub few : c.base + 2 * steps < c.end

-- What is written after `dest` for the labels that follow.
abbrev pub behind : Bytes → List Bytes → Bytes
behind [] labels = text_of labels
behind (x ∷ dest) labels = (x ∷ dest) ++ dotted labels

abbrev pub separated : Bytes → Bytes
separated [] = []
separated (x ∷ dest) = (x ∷ dest) ++ b'.' ∷ []

pub behind-nil : (dest : Bytes) → behind dest [] ≡ dest
behind-nil [] = refl
behind-nil (x ∷ dest) = append-nil (x ∷ dest)

pub behind-cons :
    (dest l : Bytes) (labels : List Bytes)
    → 0 < length l
    → behind dest (l ∷ labels) ≡ behind (separated dest ++ l) labels
behind-cons [] [] labels h = absurd (omega arith)
behind-cons [] (y ∷ l) labels h = refl
behind-cons (x ∷ dest) l labels h = simp append_assoc

pub length-behind : (dest : Bytes) (labels : List Bytes) → length dest ≤ length (behind dest labels)
length-behind [] labels = omega arith
length-behind (x ∷ dest) labels = omega (arith, length-append dest (dotted labels))
