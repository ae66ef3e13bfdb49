-- ===== src/Tui/Agents/Registering.antt =====
-- What adding and deleting an agent in internal/tui/views/agents.go leave in the configuration and in
-- the database.
use mathlib.Core.Option
use uruflow.Prelude.{
  ◌≡◌, ◌⊎◌, Bool, true, ◌||◌, [], ◌∷◌, ◌++◌, Option, none, some, Text, bytes, any, key_is,
}
use uruflow.Config.{Config, AgentConfig}
use uruflow.Config.Files.{save}
use uruflow.Models.{Agent}
use uruflow.Storage.{AgentRow, Db, has_agent}
use uruflow.Storage.Agents.{get_agent, no_metrics}
use uruflow.Tui.Agents.{Msg, added, not_added}
use uruflow.Tui.Agents.Commands.{World, Env, new_agent, run_add}

abbrev pub exists : Text → Msg
exists name = not_added (bytes "agent " ++ name ++ bytes " already exists")

abbrev pub agent_of : Text → Text → Text → AgentConfig
agent_of id name token = record { id = id; name = name; token = token }

abbrev with_agent : Config → AgentConfig → Config
with_agent c a = record c { agents = c.agents ++ a ∷ [] }

-- What the store has of an agent that was just created.
abbrev pub stored : Agent → Agent
stored a = record a { metrics = some no_metrics }

abbrev pub is_taken : Db → Text → Text → Bool
is_taken db id name = has_agent db id || any (key_is (λ (r : AgentRow). r.name) name) db.agents

module _ {D : Type 0} (env : Env D) where
  abbrev pub drawn : Text → AgentConfig
  drawn name = agent_of env.drawn_id name env.drawn_token

  -- The error of saving is shown, or the id and the token.
  abbrev pub IsReported : World D → Text → World D × Msg → Type 0
  IsReported w name (w', shown) =
      ((e : Text) × (save env.fs w.disk env.path w'.config ≡ (w'.disk, some e))
        × (shown ≡ not_added e)
        × (w'.db ≡ w.db)
        × (run_add env w' name ≡ (w', exists name)))
      ⊎ (save env.fs w.disk env.path w'.config ≡ (w'.disk, none))
        × (shown ≡ added (record { name = name; id = env.drawn_id; token = env.drawn_token }))
        × ((is_taken w.db env.drawn_id name ≡ true) × (w'.db ≡ w.db)
            ⊎ (get_agent w.db env.drawn_id ≡ none)
              × (get_agent w'.db env.drawn_id
                  ≡ some (stored (new_agent env.drawn_id name env.drawn_token env.now))))
