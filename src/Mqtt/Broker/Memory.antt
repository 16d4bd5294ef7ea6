-- ===== src/Mqtt/Broker/Memory.antt =====
-- A cache of sessions as a function, with the laws that are asked of one.
use nexusflow_backend.Prelude.{
  ◌≡◌, ◌≢◌, refl, String, Option, none, some, ◌===◌, ===_refl, eq_of_===, if◌then◌else◌, Bool-cases,
  inl, inr,
}
use nexusflow_backend.Mqtt.Broker.{SessionCache}

abbrev pub entry : String → Option String → (String → Option String) → String → Option String
entry k o c j = if k === j then o else c j

pub entry_self : (k : String) (o : Option String) (c : String → Option String) → entry k o c k ≡ o
entry_self k o c = rw (===_refl k) refl

pub entry_other :
    (k j : String) (o : Option String) (c : String → Option String) → k ≢ j → entry k o c j ≡ c j
entry_other k j o c ne = elim (Bool-cases (k === j)) [
  | inl same ↦ absurd (ne (eq_of_=== k j same))
  | inr differs ↦ rw differs refl
]

abbrev pub in_memory : SessionCache
in_memory = record {
  Entries = String → Option String;
  get = λ k c. c k;
  set = λ k v c. entry k (some v) c;
  del = λ k c. entry k none c;
  get-set_self = λ k v c. entry_self k (some v) c;
  get-set_ne = λ k j v c ne. entry_other k j (some v) c ne;
  get-del_self = λ k c. entry_self k none c;
  get-del_ne = λ k j c ne. entry_other k j none c ne;
}
