-- ===== src/Headscale/Values.antt =====
-- What `json.loads` makes of an answer of Headscale, and how headscale/client.py reads it. Numbers
-- are natural: Headscale's ids are, and no other number of an answer is read.
use deep_orc.Prelude.{
  if◌then◌else◌, ◌==◌, nat_eq, Text, text_eq, is_empty, ℕ, Bool, true, false, not, Option, none,
  some, List, [], ◌∷◌, map,
}
use deep_orc.Models.{bad_json, value_error}
use deep_orc.Effects.{Result, ok, err}
use deep_orc.Database.{
  gateway_keyed, job_keyed, peer_keyed, group_keyed, worker_keyed, enrollment_keyed,
  registration_keyed,
}

mutual
  pub data Json : Type 0 where
    null : Json
    boolean : Bool → Json
    number : ℕ → Json
    text : Text → Json
    list : Jsons → Json
    object : Members → Json

  pub data Jsons : Type 0 where
    nil : Jsons
    cons : Json → Jsons → Jsons

  pub data Members : Type 0 where
    empty : Members
    member : Text → Json → Members → Members

abbrev pub to_list : Jsons → List Json
to_list nil = []
to_list (cons x xs) = x ∷ to_list xs

-- `node.get(key)`; keys of a dict are distinct.
unfoldable pub get_member : Text → Members → Option Json
get_member key empty = none
get_member key (member k v rest) =
    let later = get_member key rest in if k == key then some v else later

-- `if value`
abbrev pub truthy : Json → Bool
truthy null = false
truthy (boolean b) = b
truthy (number n) = not (n == 0)
truthy (text t) = not (is_empty t)
truthy (list nil) = false
truthy (list (cons x xs)) = true
truthy (object empty) = false
truthy (object (member k v rest)) = true

-- `value == n`, where `True` is 1 and `False` is 0.
abbrev pub equals_number : ℕ → Json → Bool
equals_number n (number m) = m == n
equals_number n (boolean true) = n == 1
equals_number n (boolean false) = n == 0
equals_number n _ = false

abbrev pub equals_text : Text → Json → Bool
equals_text s (text t) = t == s
equals_text s _ = false

-- `[n for n in values if isinstance(n, dict)]`
abbrev pub objects : List Json → List Members
objects [] = []
objects (object m ∷ values) = m ∷ objects values
objects (_ ∷ values) = objects values

abbrev pub member_names : Members → List Json
member_names empty = []
member_names (member k v rest) = text k ∷ member_names rest

-- `for value in values`: the items of a list, the keys of a dict, the characters of a text; an
-- exception of a wrong shape is `bad_json`.
abbrev pub iterate : Json → Result (List Json)
iterate (list values) = ok (to_list values)
iterate (object m) = ok (member_names m)
iterate (text t) = ok (map (λ c. text (c ∷ [])) t)
iterate _ = err (value_error bad_json)

-- `value.get`, which only a dict has.
abbrev pub as_object : Json → Result Members
as_object (object m) = ok m
as_object _ = err (value_error bad_json)
