-- ===== src/Tests/Replies.antt =====
-- The reply to a request of the sample database's server.
use dbl_service.Prelude.{String, ◌≡◌, Bool, ◌⊎◌}
use dbl_service.Fallible.{ok, err, null_pointer, logic_error}
use dbl_service.Service.Dispatch.{answer, read, failed_text}
use dbl_service.Service.Replies.{answer-replies}
use dbl_service.Tests.Sample.{sample_json, sample_env, sample_connection, Tree, truth, member}
use dbl_service.Tests.Client.{sample_IsLawful}

answer-replies_example :
    ((read sample_env "block" sample_connection).0 ≡ err null_pointer)
    ⊎ (((e : String) × ((answer sample_env "block" sample_connection).0 ≡ err (logic_error e))
          × ((read sample_env "block" sample_connection).0 ≡ ok (failed_text sample_env e)))
        ⊎ ((v : Tree) × (b : Bool) × ((read sample_env "block" sample_connection).0
              ≡ ok (sample_json.print v))
            × (member v "success" ≡ ok (truth b))))
answer-replies_example = answer-replies sample_env sample_IsLawful "block" sample_connection
