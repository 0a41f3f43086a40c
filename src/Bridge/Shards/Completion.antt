-- ===== src/Bridge/Shards/Completion.antt =====
-- The end of a script's run in web/lib/script-bridge-store.ts.
use link_suffix.Base.{ℕ, Bool, ◌&&◌, some, String, str_eq, if◌then◌else◌, any, holds_text}
use link_suffix.Bridge.{Store, Shard, update_where}
use link_suffix.Bridge.Shards.Deletion.{is_terminal}

-- The shard's row, where it records the invocation.
abbrev is_invocation : String → String → Shard → Bool
is_invocation id invocation sh =
    str_eq sh.shard_id id && holds_text sh.last_invocation_id invocation

unfoldable pub complete_bridge_invocation : ℕ → String → String → String → Store → Store × Bool
complete_bridge_invocation now id invocation status s =
    let known = if is_terminal (some status) then status else "completed" in
    (
      record s {
        shards =
            update_where (is_invocation id invocation)
              (λ sh. record sh {
                last_execution_completed_at = some now;
                last_execution_status = some known;
                updated_at = now;
              })
              s.shards;
      },
      any (is_invocation id invocation) s.shards,
    )
