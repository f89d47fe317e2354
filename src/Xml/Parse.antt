-- ===== src/Xml/Parse.antt =====
-- `parse` of src/xml.rs over the events of quick-xml's reader.
use los_cara.Base.{
  ◌≡◌, refl, ◌∙◌, ap, List, [], ◌∷◌, ◌++◌, append_assoc, append-nil, ℕ, Option, none, some, Text,
}
use los_cara.Xml.Tree.{XmlNode, node, Children, nil, cons, push}

-- `reader.read_event()`. The text of `text` is the result of `unescape`.
pub data Event : Type 0 where
  start empty : Text → Event
  text : Option Text → Event
  end eof other error : Event

-- `parent.children.push(node)`.
unfoldable pub push_child : XmlNode → XmlNode → XmlNode
push_child (node t s cs) c = node t s (push cs c)

-- `parent.text.push_str(s)`.
unfoldable pub push_text : XmlNode → Text → XmlNode
push_text (node t s cs) more = node t (s ++ more) cs

-- The loop; the stack has its top at the head. `none` is `Err(())`.
unfoldable pub parse_loop : List XmlNode → List Event → Option XmlNode
unfolding push_child push_text push
parse_loop stack [] = none
parse_loop stack (start t ∷ es) = parse_loop (node t [] nil ∷ stack) es
parse_loop [] (empty t ∷ es) = some (node t [] nil)
parse_loop (p ∷ stack) (empty t ∷ es) = parse_loop (push_child p (node t [] nil) ∷ stack) es
parse_loop [] (text o ∷ es) = parse_loop [] es
parse_loop (p ∷ stack) (text none ∷ es) = none
parse_loop (p ∷ stack) (text (some s) ∷ es) = parse_loop (push_text p s ∷ stack) es
parse_loop [] (end ∷ es) = none
parse_loop (n ∷ []) (end ∷ es) = some n
parse_loop (n ∷ p ∷ stack) (end ∷ es) = parse_loop (push_child p n ∷ stack) es
parse_loop stack (eof ∷ es) = none
parse_loop stack (error ∷ es) = none
parse_loop stack (other ∷ es) = parse_loop stack es

unfoldable pub parse : List Event → Option XmlNode
unfolding parse_loop
parse es = parse_loop [] es

-- What the reader yields for an element of which the text is already trimmed: a text event is never
-- empty, the texts of an element may stand between its children and add up, an element without
-- content may close itself, and comments and the like may stand anywhere inside.
mutual
  pub data Spells : XmlNode → List Event → Type 0 where
    self_closed : (t : Text) → Spells (node t [] nil) (empty t ∷ [])
    element :
        (t s : Text) (cs : Children) (es : List Event)
        → Fills s cs es
        → Spells (node t s cs) (start t ∷ (es ++ (end ∷ [])))

  -- The content of an element: its text, its children, and their events.
  pub data Fills : Text → Children → List Event → Type 0 where
    nothing : Fills [] nil []
    text_first :
        (c : ℕ) (s rest : Text) (cs : Children) (es : List Event)
        → Fills rest cs es
        → Fills ((c ∷ s) ++ rest) cs (text (some (c ∷ s)) ∷ es)
    child_first :
        (n : XmlNode) (s : Text) (cs : Children) (es fs : List Event)
        → Spells n es
        → Fills s cs fs
        → Fills s (cons n cs) (es ++ fs)
    other_first :
        (s : Text) (cs : Children) (es : List Event) → Fills s cs es → Fills s cs (other ∷ es)

-- A document: its root, after a declaration, comments and the like.
pub data IsDocument (n : XmlNode) : List Event → Type 0 where
  root : (es : List Event) → Spells n es → IsDocument n es
  declared : (es : List Event) → IsDocument n es → IsDocument n (other ∷ es)

abbrev pub push_all : Children → Children → Children
push_all bs nil = bs
push_all bs (cons c cs) = push_all (push bs c) cs

push_all-cons : (b : XmlNode) (bs cs : Children) → push_all (cons b bs) cs ≡ cons b (push_all bs cs)
unfolding push
push_all-cons b bs nil = refl
push_all-cons b bs (cons c cs) = push_all-cons b (push bs c) cs

push_all-nil : (cs : Children) → push_all nil cs ≡ cs
unfolding push
push_all-nil nil = refl
push_all-nil (cons c cs) = push_all-cons c nil cs ∙ ap (cons c) (push_all-nil cs)

mutual
  unfolding parse_loop push_child push_text

  parse_loop-Spells :
      {n : XmlNode} {es : List Event}
      → Spells n es
      → (p : XmlNode) (stack : List XmlNode) (rest : List Event)
      → parse_loop (p ∷ stack) (es ++ rest) ≡ parse_loop (push_child p n ∷ stack) rest
  parse_loop-Spells (self_closed t) p stack rest = refl
  parse_loop-Spells (element t s cs es f) p stack rest =
      ap (parse_loop (node t [] nil ∷ p ∷ stack)) (append_assoc es (end ∷ []) rest)
      ∙ parse_loop-Fills f t [] nil (p ∷ stack) (end ∷ rest)
      ∙ rw push_all-nil refl

  parse_loop-Fills :
      {s : Text} {cs : Children} {es : List Event}
      → Fills s cs es
      → (t s₀ : Text) (bs : Children) (stack : List XmlNode) (rest : List Event)
      → parse_loop (node t s₀ bs ∷ stack) (es ++ rest)
        ≡ parse_loop (node t (s₀ ++ s) (push_all bs cs) ∷ stack) rest
  parse_loop-Fills nothing t s₀ bs stack rest = rw (append-nil s₀) refl
  parse_loop-Fills (text_first c s more cs es f) t s₀ bs stack rest =
      parse_loop-Fills f t (s₀ ++ (c ∷ s)) bs stack rest ∙ rw (append_assoc s₀ (c ∷ s) more) refl
  parse_loop-Fills (child_first n s cs es fs m f) t s₀ bs stack rest =
      ap (parse_loop (node t s₀ bs ∷ stack)) (append_assoc es fs rest)
      ∙ parse_loop-Spells m (node t s₀ bs) stack (fs ++ rest)
      ∙ parse_loop-Fills f t s₀ (push bs n) stack rest
  parse_loop-Fills (other_first s cs es f) t s₀ bs stack rest =
      parse_loop-Fills f t s₀ bs stack rest

root-Spells :
    {n : XmlNode} {es : List Event}
    → Spells n es
    → (rest : List Event) → parse_loop [] (es ++ rest) ≡ some n
unfolding parse_loop
root-Spells (self_closed t) rest = refl
root-Spells (element t s cs es f) rest =
    ap (parse_loop (node t [] nil ∷ [])) (append_assoc es (end ∷ []) rest)
    ∙ parse_loop-Fills f t [] nil [] (end ∷ rest)
    ∙ rw push_all-nil refl

-- Where the events of the reader spell out an element, whatever they say before it that is neither
-- markup nor text of an element, and whatever follows: parsing them gives that element, with its
-- texts joined and its children in order. No text event of them is empty.
pub parse-IsDocument :
    (n : XmlNode) (es rest : List Event) → IsDocument n es → parse (es ++ rest) ≡ some n
unfolding parse parse_loop
parse-IsDocument n es rest (root _ m) = root-Spells m rest
parse-IsDocument n es rest (declared fs d) = parse-IsDocument n fs rest d
