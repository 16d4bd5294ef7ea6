-- ===== src/Mqtt/Topics/Laws.antt =====
-- The topics that the flow builder makes are read back as the flow and the node they were made of.
use text.Mathlib.TextLemmas.{nil-append, cons-append, append_assoc}
use nexusflow_backend.Prelude.{
  ℕ, ◌≡◌, refl, ap, ◌∙◌, sym, false, String, [], ◌∷◌, Option, none, some, is_empty, ◌⧺◌, split,
  has_char, behind, arith,
}
use nexusflow_backend.Flows.Schemas.{
  normalize_flow_topic_scope, build_input_topic, build_output_topic, scoped,
}
use nexusflow_backend.Mqtt.Topics.{
  TopicParts, topic_parts, parts_behind, get_input_topic_parts, get_output_topic_parts,
}

-- A text without the character is one part.
pub split-has_no_char : (c : ℕ) (s : String) → has_char c s ≡ false → split c s ≡ s ∷ []
unfolding split has_char
split-has_no_char c String.[] h = refl
split-has_no_char c (String.◌∷◌ d s) h = ground (arith, split-has_no_char c s)

slash-append : (t : String) → "/" ⧺ t ≡ String.◌∷◌ "/" t
slash-append t = cons-append "/" "" t ∙ ap (String.◌∷◌ "/") (nil-append t)

-- A text without a slash, before one, is the first part.
pub split-first :
    (s t : String) → has_char b'/' s ≡ false → split b'/' (s ⧺ "/" ⧺ t) ≡ s ∷ split b'/' t
unfolding split has_char
split-first String.[] t h = ap (split b'/') (nil-append ("/" ⧺ t) ∙ slash-append t)
split-first (String.◌∷◌ d s) t h = rw (cons-append d s ("/" ⧺ t)) (ground (arith, split-first s t))

pub behind-append : (p s : String) → behind p (p ⧺ s) ≡ some s
unfolding behind
behind-append String.[] s = ap some (nil-append s)
behind-append (String.◌∷◌ c p) s = rw (cons-append c p s) (ground (arith, behind-append p s))

-- A name that can stand between slashes.
pub record IsName (s : String) : Type 0 where
  pub not_empty : is_empty s ≡ false
  pub no_slash : has_char b'/' s ≡ false

topic_parts-node :
    (node : String)
    → IsName node
    → topic_parts (split b'/' node) ≡ some (record { flow_id = none; node_id = node })
topic_parts-node node n = rw (split-has_no_char b'/' node n.no_slash) (rw n.not_empty)

topic_parts-flow :
    (flow node : String)
    → IsName flow
    → IsName node
    → topic_parts (split b'/' (flow ⧺ "/" ⧺ node))
      ≡ some (record { flow_id = some flow; node_id = node })
topic_parts-flow flow node f n =
    rw (split-first flow node f.no_slash)
      (rw (split-has_no_char b'/' node n.no_slash) (rw f.not_empty (rw n.not_empty)))

behind-prefix : (prefix s : String) → behind (prefix ⧺ "/") (prefix ⧺ "/" ⧺ s) ≡ some s
behind-prefix prefix s =
    ap (behind (prefix ⧺ "/")) (sym (append_assoc prefix "/" s)) ∙ behind-append (prefix ⧺ "/") s

parts_behind-scoped :
    (prefix node : String) (flow : Option String)
    → IsName node
    → ((f : String) → flow ≡ some f → IsName f)
    → parts_behind (behind (prefix ⧺ "/") (scoped prefix flow node))
      ≡ some (record { flow_id = flow; node_id = node })
parts_behind-scoped prefix node none n names =
    rw (behind-prefix prefix node) (topic_parts-node node n)
parts_behind-scoped prefix node (some f) n names =
    rw (behind-prefix prefix (f ⧺ "/" ⧺ node)) (topic_parts-flow f node (names f refl) n)

-- The input and output topics that the builder makes for a node and a flow, whose trimmed id and
-- whose node's id are not empty and have no slash, are read back as that flow and that node.
pub topic_parts_of_built :
    (node : String) (flow : Option String)
    → IsName node
    → ((f : String) → normalize_flow_topic_scope flow ≡ some f → IsName f)
    → let parts : TopicParts = record {
      flow_id = normalize_flow_topic_scope flow;
      node_id = node;
    } in
      (get_input_topic_parts (build_input_topic node flow) ≡ some parts)
      × (get_output_topic_parts (build_output_topic node flow) ≡ some parts)
unfolding get_input_topic_parts build_input_topic get_output_topic_parts build_output_topic
topic_parts_of_built node flow n names = (
  parts_behind-scoped "logic/input" node (normalize_flow_topic_scope flow) n names,
  parts_behind-scoped "nexusflow/output" node (normalize_flow_topic_scope flow) n names,
)
