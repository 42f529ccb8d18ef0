-- ===== src/Parser/Tree.antt =====
-- tree_sitter.Node, as its documentation describes it: a node has a type, its extent in the source,
-- and its children in order, each perhaps named, perhaps under a field name.
use tersecontext.Prelude.{
  ℕ, zero, suc, ◌-◌, String, Bool, Option, none, some, List, [], ◌∷◌, ◌==◌, take, if◌then◌else◌,
}
use tersecontext.Prelude.Effects.{Result}
use tersecontext.Prelude.Results.{object_or_raise, ◌>>=◌}

-- `start_byte`, `end_byte` and the rows of `start_point` and `end_point`.
pub record Extent : Type 0 where
  pub start_byte : ℕ
  pub end_byte : ℕ
  pub start_row : ℕ
  pub end_row : ℕ

mutual
  pub data Node : Type 0 where
    node : String → Extent → Children → Node

  pub data Children : Type 0 where
    end : Children
    child : (is_named : Bool) (field : String) → Node → Children → Children

abbrev pub node_type : Node → String
node_type (node t e cs) = t

abbrev pub extent : Node → Extent
extent (node t e cs) = e

abbrev pub children : Node → Children
children (node t e cs) = cs

abbrev pub named : Children → List Node
named end = []
named (child is_named field n cs) = let rest = named cs in if is_named then n ∷ rest else rest

abbrev pub under : String → Children → Option Node
under f end = none
under f (child is_named field n cs) = let rest = under f cs in if field == f then some n else rest

abbrev pub named_children : Node → List Node
named_children n = named (children n)

-- The field "" stands for none.
abbrev pub child_by_field_name : String → Node → Option Node
child_by_field_name f n = under f (children n)

abbrev pub drop : ℕ → List ℕ → List ℕ
drop zero bytes = bytes
drop (suc n) [] = []
drop (suc n) (b ∷ bytes) = drop n bytes

-- `node.text`, and `source[node.start_byte:node.end_byte]` where the tree is that of the source
abbrev pub text : List ℕ → Node → List ℕ
text source n = let e = extent n in take (e.end_byte - e.start_byte) (drop e.start_byte source)

-- What the parser takes from Python's library: `bytes.decode("utf-8")`, and
-- `hashlib.sha256(s.encode("utf-8")).hexdigest()`.
pub record Python : Type 0 where
  pub decode : List ℕ → Result String
  pub sha256_hexdigest : String → String

-- The first node of a type.
abbrev pub of_type : String → List Node → Option Node
of_type t [] = none
of_type t (n ∷ ns) = let rest = of_type t ns in if node_type n == t then some n else rest

module _ (py : Python) (source : List ℕ) where
  -- py_nodes.py
  unfoldable pub text_of : Node → Result String
  text_of n = py.decode (text source n)

  -- `_text(source, node)` of what a lookup gave
  unfoldable pub text_at : Option Node → Result String
  unfolding text_of
  text_at o = do n ← object_or_raise o; text_of n
