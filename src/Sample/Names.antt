-- ===== src/Sample/Names.antt =====
-- Toy names and blocks: a component is a type and octets, a name a list of components, a block a
-- type and octets, which are a sequence of framed blocks where it has sub-elements.
use mathlib.Core.Option.{some-injective}
use nac_abe.Common.{
  ℕ, Bytes, ◌≡◌, refl, ap, sym, ◌∙◌, Bool, true, false, ◌↔◌, Option, none, some, List, [], ◌∷◌,
  ◌++◌, length, nat_beq, bytes_beq, bytes_beq_iff, get_elem?, concat_map, arith, Bool-cases, inl,
  inr, if◌then◌else◌,
}
use nac_abe.Ndn.{Ndn}
use nac_abe.Sample.Codec.{Field, frame, frames, unframes, unframes-frames, unframes-append}

abbrev pub NameParts : Type 0
NameParts = List Field

abbrev pub name_same : NameParts → NameParts → Bool
name_same a b = bytes_beq (frames a) (frames b)

frames_injective : (a b : NameParts) → frames a ≡ frames b → a ≡ b
frames_injective a b h =
    some-injective a b (sym (unframes-frames a) ∙ ap unframes h ∙ unframes-frames b)

pub name_same_iff : (a b : NameParts) → (name_same a b ≡ true) ↔ (a ≡ b)
name_same_iff a b = (
  λ h. frames_injective a b ((bytes_beq_iff (frames a) (frames b)).0 h),
  λ h. (bytes_beq_iff (frames a) (frames b)).1 (ap frames h),
)

abbrev pub reversed : NameParts → NameParts
reversed [] = []
reversed (c ∷ cs) = reversed cs ++ c ∷ []

pub reversed-last : (cs : NameParts) (c : Field) → reversed (cs ++ c ∷ []) ≡ c ∷ reversed cs
reversed-last [] c = refl
reversed-last (d ∷ cs) c = ap (λ l. l ++ d ∷ []) (reversed-last cs c)

reversed-second : (cs : NameParts) (c d : Field) → reversed (cs ++ c ∷ d ∷ []) ≡ d ∷ c ∷ reversed cs
reversed-second [] c d = refl
reversed-second (e ∷ cs) c d = ap (λ l. l ++ e ∷ []) (reversed-second cs c d)

abbrev pub back : NameParts → ℕ → Option Field
back n i = get_elem? (reversed n) i

pub back_last : (n cs : NameParts) (c : Field) → n ≡ cs ++ c ∷ [] → back n 0 ≡ some c
back_last n cs c h = ap (λ l. get_elem? l 0) (ap reversed h ∙ reversed-last cs c)

pub back_second : (n cs : NameParts) (c d : Field) → n ≡ cs ++ c ∷ d ∷ [] → back n 1 ≡ some c
back_second n cs c d h = ap (λ l. get_elem? l 1) (ap reversed h ∙ reversed-second cs c d)

abbrev pub without_last : NameParts → NameParts
without_last [] = []
without_last (c ∷ []) = []
without_last (c ∷ d ∷ rest) = c ∷ without_last (d ∷ rest)

pub without_last-append : (n : NameParts) (c : Field) → without_last (n ++ c ∷ []) ≡ n
without_last-append [] c = refl
without_last-append (d ∷ []) c = refl
without_last-append (d ∷ e ∷ rest) c = ap (λ l. d ∷ l) (without_last-append (e ∷ rest) c)

abbrev pub starts : NameParts → NameParts → Bool
starts [] m = true
starts (c ∷ n) [] = false
starts (c ∷ n) (d ∷ m) = if name_same (c ∷ []) (d ∷ []) then starts n m else false

pub starts_split : (n m : NameParts) → starts n m ≡ true → (cs : NameParts) × (m ≡ n ++ cs)
starts_split [] m h = (m, refl)
starts_split (c ∷ n) [] h = absurd (ground arith)
starts_split (c ∷ n) (d ∷ m) h = elim (Bool-cases (name_same (c ∷ []) (d ∷ []))) [
  | inl e ↦
      let (cs, q) = starts_split n m (ground arith) in
      (
        cs,
        sym (ap (λ l. l ++ m) (frames_injective (c ∷ []) (d ∷ []) ((bytes_beq_iff _ _).0 e)))
            ∙ ap (λ l. c ∷ l) q,
      )
  | inr e ↦ absurd (ground arith)
]

pub starts-append : (n cs : NameParts) → starts n (n ++ cs) ≡ true
starts-append [] cs = refl
starts-append (c ∷ n) cs = rw ((name_same_iff (c ∷ []) (c ∷ [])).1 refl, starts-append n cs)

abbrev pub single : Option (List Field) → Option Field
single (some (b ∷ [])) = some b
single _ = none

abbrev pub one_number : Bytes → Option ℕ
one_number (n ∷ []) = some n
one_number _ = none

pub concat-frames : (bs : List Field) → concat_map frame bs ≡ frames bs
unfolding frames
concat-frames [] = refl
concat-frames (b ∷ bs) = ap (λ l. frame b ++ l) (concat-frames bs)

pub nothing_there : unframes [] ≡ some []
unfolding unframes
nothing_there = refl

pub frames-frame : (b : Field) → unframes (frame b) ≡ some (b ∷ [])
frames-frame b = unframes-append [] b [] nothing_there

instance abbrev pub toy_ndn : Ndn
toy_ndn = record {
  Name = NameParts;
  Component = Field;
  Block = Field;
  components = λ n. n;
  components_injective = λ a b h. h;
  name_beq = name_same;
  name_beq_iff = name_same_iff;
  empty_name = [];
  components-empty_name = refl;
  size = length;
  size_lem = λ n. refl;
  at = λ n i. get_elem? n i;
  at_lem = λ n i. refl;
  at_back = back;
  at_back_last = back_last;
  at_back_second = back_second;
  append = λ n c. n ++ c ∷ [];
  components-append = λ n c. refl;
  append_name = λ n m. n ++ m;
  components-append_name = λ n m. refl;
  drop_last = without_last;
  drop_last-append = without_last-append;
  is_prefix_of = starts;
  is_prefix_of_iff = λ n m. (starts_split n m, λ p. ap (starts n) p.1 ∙ starts-append n p.0);
  generic = λ b. (8, b);
  version = λ i. (54, i ∷ []);
  segment = λ i. (50, i ∷ []);
  is_segment = λ c. nat_beq c.0 50;
  is_segment-segment = λ i. refl;
  is_segment-version = λ i. refl;
  is_segment-generic = λ b. refl;
  is_version = λ c. nat_beq c.0 54;
  is_version-version = λ i. refl;
  read_component = λ c. c.1;
  read_component-generic = λ b. refl;
  wire_encode = frames;
  name_from_value = λ c. unframes c.1;
  name_from_value-generic = unframes-frames;
  type_of = λ b. b.0;
  value = λ b. b.1;
  make_empty_block = λ t. (t, []);
  make_binary_block = λ t b. (t, b);
  make_integer_block = λ t n. (t, n ∷ []);
  name_block = λ n. (7, frames n);
  type_of-empty = λ t. refl;
  type_of-binary = λ t b. refl;
  type_of-integer = λ t n. refl;
  type_of-name = λ n. refl;
  value-binary = λ t b. refl;
  read_integer = λ b. one_number b.1;
  read_integer-integer = λ t n. refl;
  block_name = λ b. unframes b.1;
  block_name-name = unframes-frames;
  elements = λ b. unframes b.1;
  elements-empty = λ t. nothing_there;
  push_back = λ b e. (b.0, b.1 ++ frame e);
  type_of-push_back = λ b e. refl;
  elements-push_back = λ b e es h. unframes-append b.1 e es h;
  wire = frame;
  from_wire = λ b. single (unframes b);
  from_wire-wire = λ b. ap single (frames-frame b);
  empty_component = (8, []);
  push_component = λ c b. (c.0, c.1 ++ frame b);
  is_segment-empty_component = refl;
  is_segment-push_component = λ c b. refl;
  component_elements = λ c. unframes c.1;
  component_elements-generic = λ bs. ap unframes (concat-frames bs) ∙ unframes-frames bs;
}
