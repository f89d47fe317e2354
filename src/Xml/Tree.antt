-- ===== src/Xml/Tree.antt =====
-- `XmlNode` of src/xml.rs and its queries.
use los_cara.Base.{List, [], ◌∷◌, ◌++◌, Option, none, some, Text, text_eq, if◌then◌else◌}
use mathlib.Core.Option

mutual
  pub data XmlNode : Type 0 where
    node : (tag text : Text) → Children → XmlNode

  -- `Vec<XmlNode>`.
  pub data Children : Type 0 where
    nil : Children
    cons : XmlNode → Children → Children

abbrev pub tag : XmlNode → Text
tag (node t _ _) = t

abbrev pub text : XmlNode → Text
text (node _ t _) = t

abbrev pub children : XmlNode → Children
children (node _ _ cs) = cs

-- `children.push(c)`.
unfoldable pub push : Children → XmlNode → Children
push nil c = cons c nil
push (cons b bs) c = cons b (push bs c)

unfoldable mutual
  pub walk : Text → XmlNode → List XmlNode
  walk t (node _ _ cs) = walk_children t cs

  pub walk_children : Text → Children → List XmlNode
  walk_children t nil = []
  walk_children t (cons c cs) =
      (if text_eq (tag c) t then c ∷ walk t c else walk t c) ++ walk_children t cs

unfoldable pub find_all : XmlNode → Text → List XmlNode
unfolding walk
find_all n t = walk t n

find_child : Text → Children → Option XmlNode
find_child t nil = none
find_child t (cons c cs) = if text_eq (tag c) t then some c else find_child t cs

unfoldable pub child : XmlNode → Text → Option XmlNode
unfolding find_child
child n t = find_child t (children n)

unfoldable pub text_of : XmlNode → Text → Option Text
unfolding child
text_of n t = Option.map text (child n t)
