-- ===== src/S3/Document.antt =====
-- How the handlers of src/s3.rs write their XML documents: the calls of the builder in their order.
use los_cara.Base.{List, [], ◌∷◌, Text, String, codes, Bool, true, false}
use los_cara.Xml
use los_cara.Xml.{Xml, Escape, xmlns_s3}

infixl 3 ◌▷◌
abbrev pub ◌▷◌ : Xml → (Xml → Xml) → Xml
x ▷ f = f x

-- A loop that writes for each entry.
unfoldable pub each : {A : Type 0} → (A → Xml → Xml) → List A → Xml → Xml
each write [] x = x
each write (a ∷ xs) x = each write xs (write a x)

abbrev pub written_if : Bool → (Xml → Xml) → Xml → Xml
written_if true f x = f x
written_if false f x = x

abbrev pub flag : Bool → Text
flag true = codes "true"
flag false = codes "false"

abbrev pub closed : String → Xml → Xml
closed name = Xml.close (codes name)

module _ (escape : Escape) where
  abbrev pub rooted : String → Xml
  rooted name = Xml.open_tag escape (codes name) ((codes "xmlns", xmlns_s3) ∷ []) Xml.new

  abbrev pub opened : String → Xml → Xml
  opened name = Xml.open_tag escape (codes name) []

  abbrev pub leaf : String → Text → Xml → Xml
  leaf name text = Xml.el escape (codes name) text

  -- The identity that every document gives.
  abbrev pub identity : Xml → Xml
  identity x = x ▷ leaf "ID" (codes "los-cara-owner") ▷ leaf "DisplayName" (codes "los-cara")

  abbrev pub person : String → Xml → Xml
  person role x = x ▷ opened role ▷ identity ▷ closed role
