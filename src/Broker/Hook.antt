-- ===== src/Broker/Hook.antt =====
-- system_hook.go: GitLab's system hook asks for a refresh of the index.
use gitseal.Prelude.{ℕ, Bool, not, ◌||◌, Text, text, text_eq, is_empty, if◌then◌else◌}
use gitseal.Broker.State.{Broker}
use gitseal.Broker.World.{GitLab, Ssh}
use gitseal.Broker.Challenge.{Answer, answer}
use gitseal.Broker.Reconcile.{on_miss_refresh}

unfoldable pub is_system_hook_event : Text → Bool
is_system_hook_event e =
    text_eq e (text "key_create")
    || text_eq e (text "key_destroy")
    || text_eq e (text "user_add_to_team")
    || text_eq e (text "user_remove_from_team")

-- HandleSystemHook with no test seam; `event` is the decoded event name, "" where the body does not
-- decode.
unfoldable pub handle_system_hook : GitLab → Ssh → ℕ → Bool → Text → Text → Broker → Broker × Answer
unfolding is_system_hook_event
handle_system_hook gitlab ssh now is_post token event b =
    if is_empty b.system_hook_token
    then (b, answer 503)
    else if not is_post
    then (b, answer 405)
    else if not (text_eq token b.system_hook_token)
    then (b, answer 401)
    else if is_system_hook_event event
    then (on_miss_refresh gitlab ssh now b, answer 200)
    else (b, answer 200)
