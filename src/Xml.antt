-- ===== src/Xml.antt =====
-- src/xml.rs: the XML builder, the tree of a parsed document, and the parser.
-- quick-xml is not in the repository: its `escape` is a parameter of the builder, and its reader is
-- the list of events that it hands to the parser.
pub mod Tree
pub mod Parse
use los_cara.Base.{List, [], ◌∷◌, ◌++◌, Text, codes}

-- quick-xml's `escape`.
abbrev pub Escape : Type 0
Escape = Text → Text

pub record Xml : Type 0 where
  pub buf : Text

unfoldable pub new : Xml
new = record { buf = [] }

abbrev pub xmlns_s3 : Text
xmlns_s3 = codes "http://s3.amazonaws.com/doc/2006-03-01/"

unfoldable pub push_str : Text → Xml → Xml
push_str s x = record { buf = x.buf ++ s }

module _ (escape : Escape) where
  -- The loop over the attributes.
  push_attrs : List (Text × Text) → Xml → Xml
  push_attrs [] x = x
  push_attrs ((k, v) ∷ attrs) x = push_attrs attrs (
      push_str (b'"' ∷ [])
        (push_str (escape v) (push_str (codes "=\"") (push_str k (push_str (b' ' ∷ []) x)))))

  unfoldable pub open_tag : Text → List (Text × Text) → Xml → Xml
  unfolding push_attrs push_str
  open_tag name attrs x =
      push_str (b'>' ∷ []) (push_attrs attrs (push_str name (push_str (b'<' ∷ []) x)))

unfoldable pub text_raw : Text → Xml → Xml
unfolding push_str
text_raw text x = push_str text x

unfoldable pub close : Text → Xml → Xml
unfolding push_str
close name x = push_str (b'>' ∷ []) (push_str name (push_str (codes "</") x))

module _ (escape : Escape) where
  unfoldable pub el : Text → Text → Xml → Xml
  unfolding open_tag text_raw close
  el name text x = close name (text_raw (escape text) (open_tag escape name [] x))

  unfoldable pub el_raw : Text → Text → Xml → Xml
  unfolding open_tag text_raw close
  el_raw name text x = close name (text_raw text (open_tag escape name [] x))

unfoldable pub finish : Xml → Text
finish x = x.buf
