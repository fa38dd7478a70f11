-- ===== src/View.antt =====
-- What the components of web-dashboard/src render, as trees of elements. An attribute is a name and a
-- text, `style` is one attribute for each property, handlers, references and the settings of
-- animations are left out, and a `key` is an attribute as any other. A component that the program
-- declares stands for what it renders; those of libraries are elements with their names.
pub mod Console
pub mod Tracker
pub mod Feed
pub mod Health
pub mod Charts
pub mod Page
pub mod Keys
use Prim.Native.String.{String}
use aether_lens.Prelude.{
  Option, none, some, List, [], ◌∷◌, ◌++◌, Text, codes, text_eq, if◌then◌else◌,
}

mutual
  pub data Node : Type 0 where
    text : Text → Node
    element : Text → List (Text × Text) → Nodes → Node

  pub data Nodes : Type 0 where
    nil : Nodes
    ◌▷◌ : Node → Nodes → Nodes

infixr 60 ◌▷◌
abbrev pub key : Text → Text × Text
key k = (codes "key", k)

abbrev pub class : Text → Text × Text
class names = (codes "className", names)

-- A text that stands in the source.
abbrev pub literal : String → Node
literal s = text (codes s)

abbrev pub div : String → Nodes → Node
div names children = element (codes "div") (class (codes names) ∷ []) children

abbrev pub span : String → Nodes → Node
span names children = element (codes "span") (class (codes names) ∷ []) children

-- An icon of the library lucide-react.
abbrev pub icon : String → String → Node
icon name names = element (codes name) (class (codes names) ∷ []) nil

-- `xs.map(f)` as children.
unfoldable pub each {ℓ} : {A : Type ℓ} → (A → Node) → List A → Nodes
each f [] = nil
each f (x ∷ xs) = f x ▷ each f xs

-- The text of an element and of all that is in it.
unfoldable mutual
  pub text_content : Node → Text
  text_content (text t) = t
  text_content (element tag attributes children) = texts children

  pub texts : Nodes → Text
  texts nil = []
  texts (n ▷ ns) = text_content n ++ texts ns

-- What an attribute is set to.
unfoldable pub attribute : Text → List (Text × Text) → Option Text
attribute name [] = none
attribute name ((n, value) ∷ attributes) =
    let rest = attribute name attributes in if text_eq n name then some value else rest

unfoldable pub key_of : Node → Option Text
unfolding attribute
key_of (text t) = none
key_of (element tag attributes children) = attribute (codes "key") attributes
