-- ===== src/Server/Status.antt =====
-- `ServiceState::status_json` of server.rs.
use macevery.Prelude.{ℕ, ◌-◌, Bool, true, false, not, ◌&&◌, Option, none, some, ◌++◌}
use macevery.Prelude.Int.{pos}
use macevery.Model.Text.{Text, codes}
use macevery.Server.Outcome.{Outcome, ok, err}
use macevery.Server.Json.{json_escape, to_string}
use macevery.Server.Backend.{as_str}
use macevery.Server.State.{ContentStamp, PackedIndex, ServiceState, is_ready, loaded_records}
use macevery.Server.State.Refresh.{is_stale}

abbrev pub bool_json : Bool → Text
bool_json true = codes "true"
bool_json false = codes "false"

abbrev pub number_json : ℕ → Text
number_json n = to_string (pos n)

abbrev pub text_json : Option Text → Text
text_json none = codes "null"
text_json (some t) = codes "\"" ++ json_escape t ++ codes "\""

abbrev pub revision_json : Option ContentStamp → Text
revision_json none = codes "null"
revision_json (some stamp) = to_string stamp.revision

abbrev pub observed_json : Outcome ContentStamp → Text
observed_json (ok stamp) = to_string stamp.revision
observed_json (err e) = codes "null"

-- `self.last_load_error.as_ref().or(observation_error.as_ref())`.
abbrev pub or_observed : Option Text → Outcome ContentStamp → Option Text
or_observed (some e) observed = some e
or_observed none (ok stamp) = none
or_observed none (err e) = some e

module _ (I : PackedIndex) where
  -- `db_path` and `actual_index_bytes`, of the snapshot of memory, are given.
  unfoldable pub status_json : Text → ℕ → Outcome ContentStamp → ServiceState I.Index → Text
  status_json db_path actual_index_bytes observed s =
      let stale = is_stale I s.loaded_stamp observed in
      let ready = is_ready I s.backend in
      codes "{\"ok\":"
      ++ bool_json (ready && not stale)
      ++ codes ",\"ready\":"
      ++ bool_json ready
      ++ codes ",\"stale\":"
      ++ bool_json stale
      ++ codes ",\"backend\":\""
      ++ as_str s.selected_backend
      ++ codes "\",\"requested_backend\":\""
      ++ as_str s.requested_backend
      ++ codes "\",\"records\":"
      ++ to_string s.records_total
      ++ codes ",\"loaded_records\":"
      ++ number_json (loaded_records I s.backend)
      ++ codes ",\"estimated_memory_bytes\":"
      ++ number_json s.estimated_memory_bytes
      ++ codes ",\"actual_index_bytes\":"
      ++ number_json actual_index_bytes
      ++ codes ",\"loaded_at\":"
      ++ to_string s.loaded_at
      ++ codes ",\"reload_count\":"
      ++ number_json (s.successful_loads - 1)
      ++ codes ",\"reload_attempts\":"
      ++ number_json (s.load_attempts - 1)
      ++ codes ",\"content_revision\":"
      ++ revision_json s.loaded_stamp
      ++ codes ",\"current_content_revision\":"
      ++ observed_json observed
      ++ codes ",\"last_load_error\":"
      ++ text_json (or_observed s.last_load_error observed)
      ++ codes ",\"incremental_attempts\":"
      ++ number_json s.incremental_attempts
      ++ codes ",\"incremental_applies\":"
      ++ number_json s.incremental_applies
      ++ codes ",\"incremental_change_ids\":"
      ++ number_json s.incremental_change_ids
      ++ codes ",\"last_incremental_change_ids\":"
      ++ number_json s.last_incremental_change_ids
      ++ codes ",\"refreshed_at\":"
      ++ to_string s.refreshed_at
      ++ codes ",\"last_refresh_method\":\""
      ++ s.last_refresh_method
      ++ codes "\",\"last_fallback_reason\":"
      ++ text_json s.last_fallback_reason
      ++ codes ",\"last_refresh_error\":"
      ++ text_json s.last_refresh_error
      ++ codes ",\"db_path\":\""
      ++ json_escape db_path
      ++ codes "\"}\n"
