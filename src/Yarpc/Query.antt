-- ===== src/Yarpc/Query.antt =====
-- yarpc/src/http/url.rs: `url_query`, by which the relay server learns which node asks. 63 is `?`,
-- 38 is `&` and 61 is `=`.
use core_eng.Prelude.{
  ◌==◌, ◌≡◌, refl, ap, false, List, [], ◌∷◌, ◌++◌, map, Option, none, some, Text, is_empty,
  if◌then◌else◌, All, All-append, Lacks, split, split_once, split-Lacks, split-append,
  split_once-append, collect,
}

-- `unwrap_or((v, ""))`
abbrev or_bare : Text → Option (Text × Text) → Text × Text
or_bare v none = (v, [])
or_bare v (some p) = p

unfoldable pub pair : Text → Text × Text
pair v = or_bare v (split_once 61 v)

abbrev query_of : Option (Text × Text) → List (Text × Text)
query_of none = []
query_of (some (left, right)) =
    if is_empty right then [] else collect [] (map pair (split 38 right))

unfoldable pub url_query : Text → List (Text × Text)
url_query url = query_of (split_once 63 url)

abbrev pub item : Text × Text → Text
item (k, v) = k ++ 61 ∷ v

-- The pairs as a query.
abbrev pub render : List (Text × Text) → Text
render [] = []
render (p ∷ []) = item p
render (p ∷ q ∷ ps) = item p ++ 38 ∷ render (q ∷ ps)

abbrev pub IsItem : Text × Text → Type 0
IsItem (k, v) = Lacks 61 k × Lacks 38 k × Lacks 38 v

item-Lacks : (p : Text × Text) → IsItem p → Lacks 38 (item p)
item-Lacks (k, v) h = All-append (λ x. (x == 38) ≡ false) k (61 ∷ v) h.1 (refl, h.2)

pair-item : (p : Text × Text) → IsItem p → pair (item p) ≡ p
unfolding pair
pair-item (k, v) h = rw (split_once-append 61 k v h.0) refl

pairs :
    (p : Text × Text) (ps : List (Text × Text))
    → All IsItem (p ∷ ps)
    → map pair (split 38 (render (p ∷ ps))) ≡ p ∷ ps
pairs p [] h = rw (split-Lacks 38 (item p) (item-Lacks p h.0), pair-item p h.0) refl
pairs p (q ∷ ps) h =
    rw (split-append 38 (item p) (render (q ∷ ps)) (item-Lacks p h.0), pair-item p h.0)
      (ap (λ l. p ∷ l) (pairs q ps h.1))

render_filled : (p : Text × Text) (ps : List (Text × Text)) → is_empty (render (p ∷ ps)) ≡ false
render_filled ([], v) [] = refl
render_filled (c ∷ k, v) [] = refl
render_filled ([], v) (q ∷ ps) = refl
render_filled (c ∷ k, v) (q ∷ ps) = refl

-- A URL that is written as a path without `?`, a `?`, and pairs `name=value` with `&` between them,
-- where no name holds `=` or `&` and no value holds `&`, is read back as these pairs: `url_query`
-- gives the map of them, the later of two values for one name.
pub url_query-render :
    (path : Text) (ps : List (Text × Text))
    → Lacks 63 path
    → All IsItem ps
    → url_query (path ++ 63 ∷ render ps) ≡ collect [] ps
unfolding url_query collect
url_query-render path [] h items = rw (split_once-append 63 path [] h) refl
url_query-render path (p ∷ ps) h items =
    rw (split_once-append 63 path (render (p ∷ ps)) h, render_filled p ps, pairs p ps items) refl
