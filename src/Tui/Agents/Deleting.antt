-- ===== src/Tui/Agents/Deleting.antt =====
-- What deleting an agent in internal/tui/views/agents.go leaves in the configuration, in the database
-- and on the screen.
use uruflow.Prelude.{
  ◌≡◌, ◌∙◌, refl, ap, arith, Bool, ◌&&◌, ◌||◌, List, [], ◌∷◌, none, Text, eqb, eqb_self, any, count,
  ltb, map, key_is, Bool-cases, inl, inr,
}
use uruflow.Prelude.Sort.{before_text, sort_by, count-sort_by}
use uruflow.Prelude.Refers.{any-filter_without}
use uruflow.Config.{get_agent}
use uruflow.Config.Registry.{IsUnique, remove_agent_lem}
use uruflow.Models.{Agent}
use uruflow.Storage.{AgentRow, Db, has_agent}
use uruflow.Storage.Agents.{delete_agent, is_referenced, get_all_agents}
use uruflow.Tui.Rows.{Printing, fetch_agents}
use uruflow.Tui.Rows
use uruflow.Tui.Agents.{fetched}
use uruflow.Tui.Agents.Commands.{World, Env, run_delete}

any-as-count : {A : Type 0} (p : A → Bool) (xs : List A) → any p xs ≡ ltb 0 (count p xs)
unfolding any count
any-as-count p [] = refl
any-as-count p (x ∷ xs) = ground (arith, any-as-count p xs)

any-sort_by :
    {A : Type 0} (before : A → A → Bool) (p : A → Bool) (xs : List A)
    → any p (sort_by before xs) ≡ any p xs
any-sort_by before p xs =
    ground (arith, any-as-count p (sort_by before xs), any-as-count p xs, count-sort_by before p xs)

any-map :
    {A B : Type 0} (f : A → B) (p : B → Bool) (xs : List A)
    → any p (map f xs) ≡ any (λ x. p (f x)) xs
unfolding any
any-map f p [] = refl
any-map f p (x ∷ xs) = ap (p (f x) ||◌) (any-map f p xs)

listed-has_agent :
    (print : Printing) (db : Db) (id : Text)
    → any (key_is (λ r. r.id) id) (fetch_agents print db) ≡ has_agent db id
unfolding fetch_agents get_all_agents
listed-has_agent print db id =
    any-map _ (key_is (λ r. r.id) id) (get_all_agents db)
    ∙ any-map _ (λ (a : Agent). eqb a.id id) (sort_by (λ a b. before_text a.name b.name) db.agents)
    ∙ any-sort_by (λ a b. before_text a.name b.name) (key_is (λ r. r.id) id) db.agents

delete_agent-has_agent :
    (db : Db) (id : Text)
    → has_agent (delete_agent db id).0 id ≡ (has_agent db id && is_referenced db id)
unfolding delete_agent
delete_agent-has_agent db id = elim (Bool-cases (has_agent db id && is_referenced db id)) [
  | inl kept ↦ rw kept (ground (arith, kept))
  | inr gone ↦
      rw gone
        (ground (arith, any-filter_without (λ (r : AgentRow). r.id) id id db.agents, eqb_self id))
]

-- Deleting an agent in the view: with unique ids the configuration has it no more. The database has
-- it still, and the new list still shows it, exactly if it was there and a repository, a deployment
-- or an alert names it.
pub run_delete_lem :
    {D : Type 0} (env : Env D) (w : World D) (id : Text)
    → IsUnique w.config
    → let (w', shown) = run_delete env w id in
      (rows : List Rows.AgentRow) × (shown ≡ fetched rows)
      × (get_agent w'.config id ≡ none)
      × (has_agent w'.db id ≡ (has_agent w.db id && is_referenced w.db id))
      × (any (key_is (λ r. r.id) id) rows ≡ (has_agent w.db id && is_referenced w.db id))
unfolding run_delete
run_delete_lem env w id unique =
    let db = (delete_agent w.db id).0 in
    let left = delete_agent-has_agent w.db id in
    let (found, _, _) = remove_agent_lem w.config id id unique in
    (
      fetch_agents env.print db,
      refl,
      found ∙ rw (eqb_self id),
      left,
      listed-has_agent env.print db id ∙ left,
    )
