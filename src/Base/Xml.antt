-- ===== src/Base/Xml.antt =====
-- The part of `xml.etree.ElementTree` that the program reads: elements with their tag, attributes,
-- text and children.
use mathlib.Core.Option.{Option, none, some}
use mathlib.Core.List.{List, [], ◌∷◌, ◌++◌}
use refactor_tradeoffs.Base.Tests.{if◌then◌else◌}
use refactor_tradeoffs.Base.Equality.{◌==◌, list_eq, nat_eq}
use refactor_tradeoffs.Base.Lists.{keep}
use refactor_tradeoffs.Base.Text.{Str}
use refactor_tradeoffs.Base.Dict.{Dict, lookup_or}

mutual
  pub data Element : Type 0 where
    element : (tag : Str) (attributes : Dict Str Str) (text : Option Str) → Elements → Element

  pub data Elements : Type 0 where
    nil : Elements
    cons : Element → Elements → Elements

abbrev pub tag_of : Element → Str
tag_of (element tag attributes text children) = tag

abbrev pub text_of : Element → Option Str
text_of (element tag attributes text children) = text

-- `e.get(name, default)`
unfoldable pub get : Str → Str → Element → Str
unfolding lookup_or
get name default (element tag attributes text children) = lookup_or default name attributes

listed : Elements → List Element
listed nil = []
listed (cons e es) = e ∷ listed es

-- `for child in e`
unfoldable pub children_of : Element → List Element
unfolding listed
children_of (element tag attributes text children) = listed children

-- `e.findall(tag)`: the children of that tag.
unfoldable pub findall : Str → Element → List Element
unfolding children_of
findall tag e = keep (λ c. tag_of c == tag) (children_of e)

first : List Element → Option Element
first [] = none
first (e ∷ es) = some e

-- `e.find(tag)`
unfoldable pub find : Str → Element → Option Element
unfolding findall first
find tag e = first (findall tag e)

-- `e.iter(tag)`: the element itself and all below it, in the order of the document.
unfoldable mutual
  pub iter : Str → Element → List Element
  iter tag (element t attributes text children) =
      let below = iter_in tag children in
      if t == tag then element t attributes text children ∷ below else below

  pub iter_in : Str → Elements → List Element
  iter_in tag nil = []
  iter_in tag (cons e es) = iter tag e ++ iter_in tag es
