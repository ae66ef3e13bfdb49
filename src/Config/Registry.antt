-- ===== src/Config/Registry.antt =====
-- The registry of internal/config/config.go: names stay unique, and what adding and removing do to
-- each look-up.
use uruflow.Prelude.{
  find, eqb, List, if◌then◌else◌, ◌↔◌, eqb_self, eqb_iff, any_snoc, remove_first_snoc, ◌↔◌,
  any-find, any-false-find, find-none-any, Bool-cases, ◌⊎◌, Keyed-snoc, find_snoc_self,
  find_snoc_other, find-remove_first_self, find-remove_first_ne, Keyed-remove_first, ◌≤◌, ◌≡◌, true,
  false, [], ◌∷◌, ◌++◌, none, some, Text, arith, eqb_iff, eqb_self, key_is, any, count, inl, inr,
}
use uruflow.Models.{Repository}
use uruflow.Config.{
  Config, AgentConfig, add_agent, get_agent, get_agent_by_name, remove_agent, add_repository,
  get_repository, remove_repository, set_defaults,
}

-- No two agents share a name or an id, no two repositories a name.
pub record IsUnique (c : Config) : Type 0 where
  pub agent_names : (n : Text) → count (key_is (λ a. a.name) n) c.agents ≤ 1
  pub agent_ids : (i : Text) → count (key_is (λ a. a.id) i) c.agents ≤ 1
  pub repository_names : (n : Text) → count (key_is (λ r. r.name) n) c.repositories ≤ 1

-- Filling in the defaults a second time changes nothing.
pub set_defaults_idem : (c : Config) → set_defaults (set_defaults c) ≡ set_defaults c
unfolding set_defaults
set_defaults_idem c = ground arith

abbrev agent_of : Text → Text → Text → AgentConfig
agent_of id name token = record { id = id; name = name; token = token }

abbrev with_agent : Config → AgentConfig → Config
with_agent c a = record c { agents = c.agents ++ a ∷ [] }

with_agent-IsUnique :
    (c : Config) (a : AgentConfig)
    → IsUnique c
    → get_agent c a.id ≡ none
    → any (key_is (λ x. x.name) a.name) c.agents ≡ false
    → IsUnique (with_agent c a)
unfolding get_agent
with_agent-IsUnique c a u fresh free = record {
  agent_names = Keyed-snoc (λ x. x.name) c.agents a free u.agent_names;
  agent_ids =
      Keyed-snoc (λ x. x.id) c.agents a (find-none-any (key_is (λ x. x.id) a.id) c.agents fresh)
        u.agent_ids;
  repository_names = u.repository_names;
}

-- What is found by a key after a row was added at the end whose key was free.
find_snoc :
    {A : Type 0} (key : A → Text) (xs : List A) (a : A) (k : Text)
    → any (key_is key (key a)) xs ≡ false
    → find (key_is key k) (xs ++ a ∷ [])
      ≡ (if eqb (key a) k then some a else find (key_is key k) xs)
find_snoc key xs a k free = elim (Bool-cases (eqb (key a) k)) [
  | inl same ↦ rw (same, ← (eqb_iff (key a) k).0 same) (find_snoc_self key xs a free)
  | inr other ↦ rw other (find_snoc_other key (key_is key k) xs a other)
]

-- Given unique names and ids and an id that is free: adding an agent fails exactly when an agent has the name already. Otherwise the new agent is
-- found under its name with the id and token that are returned, a name that is another finds what
-- it found before, and names and ids stay unique.
pub add_agent_lem :
    (c : Config) (name id token n : Text)
    → IsUnique c
    → get_agent c id ≡ none
    → ((a : AgentConfig) × (get_agent_by_name c name ≡ some a) × (add_agent c name id token ≡ none))
      ⊎ ((c' : Config) × (add_agent c name id token ≡ some (c', id, token))
          × (get_agent_by_name c name ≡ none)
          × (get_agent_by_name c' n
              ≡ (if eqb name n then some (agent_of id name token) else get_agent_by_name c n))
          × IsUnique c')
unfolding add_agent get_agent_by_name
add_agent_lem c name id token n u fresh =
    elim (Bool-cases (any (key_is (λ a. a.name) name) c.agents)) [
      | inl taken ↦
          let (a, e) = any-find (key_is (λ a. a.name) name) c.agents taken in inl (a, e, rw taken)
      | inr free ↦ inr (
        with_agent c (agent_of id name token),
        rw free,
        any-false-find (key_is (λ a. a.name) name) c.agents free,
        find_snoc (λ a. a.name) c.agents (agent_of id name token) n free,
        with_agent-IsUnique c (agent_of id name token) u fresh free,
      )
    ]

-- Removing an agent by id reports whether there was one; with unique ids it is gone afterwards,
-- an id that is another finds what it found before, and names and ids stay unique.
pub remove_agent_lem :
    (c : Config) (id i : Text)
    → IsUnique c
    → let (c', found) = remove_agent c id in
      (get_agent c' i ≡ (if eqb id i then none else get_agent c i))
      × ((found ≡ false) ↔ (get_agent c id ≡ none))
      × IsUnique c'
unfolding remove_agent get_agent
remove_agent_lem c id i u = (
  elim (Bool-cases (eqb id i)) [
    | inl same ↦
        rw (same, ← (eqb_iff id i).0 same)
          (find-remove_first_self (λ a. a.id) id c.agents u.agent_ids)
    | inr other ↦
        rw other
          (find-remove_first_ne (λ a. a.id) id i c.agents (ground (arith, other, eqb_self i)))
  ],
  (any-false-find (key_is (λ a. a.id) id) c.agents, find-none-any (key_is (λ a. a.id) id) c.agents),
  record {
    agent_names = Keyed-remove_first (λ a. a.name) (key_is (λ a. a.id) id) c.agents u.agent_names;
    agent_ids = Keyed-remove_first (λ a. a.id) (key_is (λ a. a.id) id) c.agents u.agent_ids;
    repository_names = u.repository_names;
  },
)

abbrev with_repository : Config → Repository → Config
with_repository c r = record c { repositories = c.repositories ++ r ∷ [] }

-- A repository whose name is not taken is added at the end and found under its name; a second one
-- of the name is refused; another name finds what it found before; and removing it restores the
-- configuration as it was.
pub add_repository-remove_repository :
    (c : Config) (repo : Repository) (n : Text)
    → get_repository c repo.name ≡ none
    → (c' : Config) × (add_repository c repo ≡ some c')
      × (get_repository c' n ≡ (if eqb repo.name n then some repo else get_repository c n))
      × (add_repository c' repo ≡ none)
      × (remove_repository c' repo.name ≡ (c, true))
unfolding add_repository get_repository remove_repository
add_repository-remove_repository c repo n e =
    let free = find-none-any (key_is (λ r. r.name) repo.name) c.repositories e in
    let self = eqb_self repo.name in
    let there = any_snoc (key_is (λ r. r.name) repo.name) c.repositories repo self in
    (
      with_repository c repo,
      rw free,
      find_snoc (λ r. r.name) c.repositories repo n free,
      rw there,
      rw (there, remove_first_snoc (key_is (λ r. r.name) repo.name) c.repositories repo free self),
    )
