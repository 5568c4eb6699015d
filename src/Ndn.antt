-- ===== src/Ndn.antt =====
-- ndn-cxx names and TLV blocks as the code uses them: a parameter of the development.
-- Each law states documented behaviour: a name is a sequence of components, a block a type, a value
-- and, once parsed, a sequence of sub-elements; encoding and decoding are inverse.
pub mod Positions
use nac_abe.Common.{
  ℕ, Bytes, Bool, true, false, ◌≡◌, ◌↔◌, Eq, Option, none, some, List, [], ◌∷◌, ◌++◌, length,
  nat_beq, if◌then◌else◌, get_elem?, concat_map,
}

module _ {ℓ} {B : Type ℓ} (type_of : B → ℕ) where
  -- The first sub-element of a TLV type.
  abbrev pub first_of_type : ℕ → List B → Option B
  first_of_type t [] = none
  first_of_type t (b ∷ bs) = if nat_beq (type_of b) t then some b else first_of_type t bs

pub record Ndn : Type 1 where
  pub Name : Type 0
  pub Component : Type 0
  pub Block : Type 0
  -- ndn::Name
  pub components : Name → List Component
  pub components_injective : (a b : Name) → components a ≡ components b → a ≡ b
  pub name_beq : Name → Name → Bool
  pub name_beq_iff : (a b : Name) → (name_beq a b ≡ true) ↔ (a ≡ b)
  -- `Name()`, to which a text such as `/example/aa` appends its parts
  pub empty_name : Name
  pub components-empty_name : components empty_name ≡ []
  pub size : Name → ℕ
  pub size_lem : (n : Name) → size n ≡ length (components n)
  -- `at(i)`, which throws out of range, and `at(-1)`, `at(-2)` as `at_back 0`, `at_back 1`
  pub at : Name → ℕ → Option Component
  pub at_lem : (n : Name) (i : ℕ) → at n i ≡ get_elem? (components n) i
  pub at_back : Name → ℕ → Option Component
  pub at_back_last :
      (n : Name) (cs : List Component) (c : Component)
      → components n ≡ cs ++ c ∷ []
      → at_back n 0 ≡ some c
  pub at_back_second :
      (n : Name) (cs : List Component) (c d : Component)
      → components n ≡ cs ++ c ∷ d ∷ []
      → at_back n 1 ≡ some c
  pub append : Name → Component → Name
  pub components-append :
      (n : Name) (c : Component) → components (append n c) ≡ components n ++ c ∷ []
  pub append_name : Name → Name → Name
  pub components-append_name :
      (n m : Name) → components (append_name n m) ≡ components n ++ components m
  -- `getPrefix(-1)`
  pub drop_last : Name → Name
  pub drop_last-append : (n : Name) (c : Component) → drop_last (append n c) ≡ n
  pub is_prefix_of : Name → Name → Bool
  pub is_prefix_of_iff :
      (n m : Name)
      → (is_prefix_of n m ≡ true) ↔ ((cs : List Component) × (components m ≡ components n ++ cs))
  -- ndn::name::Component. `generic` is the component that `append` makes of octets or of a text.
  pub generic : Bytes → Component
  pub version : ℕ → Component
  pub segment : ℕ → Component
  pub is_segment : Component → Bool
  pub is_segment-segment : (i : ℕ) → is_segment (segment i) ≡ true
  pub is_segment-version : (i : ℕ) → is_segment (version i) ≡ false
  pub is_segment-generic : (b : Bytes) → is_segment (generic b) ≡ false
  pub is_version : Component → Bool
  pub is_version-version : (i : ℕ) → is_version (version i) ≡ true
  -- `readString(component)`
  pub read_component : Component → Bytes
  pub read_component-generic : (b : Bytes) → read_component (generic b) ≡ b
  -- `Name(component.blockFromValue())`, which throws where the value is no name
  pub wire_encode : Name → Bytes
  pub name_from_value : Component → Option Name
  pub name_from_value-generic : (n : Name) → name_from_value (generic (wire_encode n)) ≡ some n
  -- ndn::Block
  pub type_of : Block → ℕ
  pub value : Block → Bytes
  pub make_empty_block : ℕ → Block
  pub make_binary_block : ℕ → Bytes → Block
  pub make_integer_block : ℕ → ℕ → Block
  pub name_block : Name → Block
  pub type_of-empty : (t : ℕ) → type_of (make_empty_block t) ≡ t
  pub type_of-binary : (t : ℕ) (b : Bytes) → type_of (make_binary_block t b) ≡ t
  pub type_of-integer : (t n : ℕ) → type_of (make_integer_block t n) ≡ t
  -- 7 is `tlv::Name`
  pub type_of-name : (n : Name) → type_of (name_block n) ≡ 7
  pub value-binary : (t : ℕ) (b : Bytes) → value (make_binary_block t b) ≡ b
  pub read_integer : Block → Option ℕ
  pub read_integer-integer : (t n : ℕ) → read_integer (make_integer_block t n) ≡ some n
  pub block_name : Block → Option Name
  pub block_name-name : (n : Name) → block_name (name_block n) ≡ some n
  -- `parse()`, which throws where the value is no sequence of blocks, then `elements()`
  pub elements : Block → Option (List Block)
  pub elements-empty : (t : ℕ) → elements (make_empty_block t) ≡ some []
  pub push_back : Block → Block → Block
  pub type_of-push_back : (b e : Block) → type_of (push_back b e) ≡ type_of b
  pub elements-push_back :
      (b e : Block) (es : List Block)
      → elements b ≡ some es
      → elements (push_back b e) ≡ some (es ++ e ∷ [])
  -- the octets of a block, and `Block(buffer)`, which throws where they are no block
  pub wire : Block → Bytes
  pub from_wire : Bytes → Option Block
  pub from_wire-wire : (b : Block) → from_wire (wire b) ≡ some b
  -- a component that holds blocks: `push_back`, and `parse()` with `elements()`
  pub empty_component : Component
  pub push_component : Component → Block → Component
  pub is_segment-empty_component : is_segment empty_component ≡ false
  pub is_segment-push_component :
      (c : Component) (b : Block) → is_segment (push_component c b) ≡ is_segment c
  pub component_elements : Component → Option (List Block)
  pub component_elements-generic :
      (bs : List Block) → component_elements (generic (concat_map wire bs)) ≡ some bs

module _ ⦃ndn : Ndn⦄ where
  open ndn use {Name, Block, elements, type_of}

  instance abbrev pub name_eq : Eq Name
  name_eq = record { beq = ndn.name_beq; beq_iff = ndn.name_beq_iff }

  -- `get(type)` after `parse()`: throws where there is no such sub-element.
  abbrev pub get_block : Block → ℕ → Option Block
  get_block b t = elim (elements b) [ none ↦ none | some es ↦ first_of_type type_of t es ]
