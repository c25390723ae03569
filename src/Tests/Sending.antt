-- ===== src/Tests/Sending.antt =====
-- What is sent to a conversation, at concrete inputs.
use mautrix_teams.Threads.{thread_of_location, new_members}
use mautrix_teams.Threads.Created.{slashes, thread_of_location_lem}
use mautrix_teams.Base.{◌++◌, ℕ, suc, ◌+◌, ◌≡◌, refl, true, false, none, [], ◌∷◌, inr}
use mautrix_teams.Base.Assoc.{Assoc, lookup, IsMap}
use mautrix_teams.Base.Text.{Text, codes, trim_space, ◌≗◌}
use mautrix_teams.Executor.{World, answered, attempt}
use mautrix_teams.Messages.Send.{
  with_context_property, SendWorld, SendResponse, with_subject, with_importance,
  send_formatted_message, format_html_content, replace_after,
}
use mautrix_teams.Model.Html.Render.{escape}
use mautrix_teams.Messages.Send.Sent.{Formatted, send_formatted_message-Formatted}
use mautrix_teams.Messages.Send.Written.{written_lines, format_html_content_lem}

abbrev created : SendResponse
created = record { status = 201; retry_after_header = []; body_start = λ n. [] }

abbrev creating : World SendResponse
creating = record {
  ctx_err = λ n. none;
  body_err = λ n. none;
  reply = λ n. answered created;
  alive = λ n. true;
  sleep_err = λ n. none;
  classify = λ r. none;
  jitter = λ d. d;
}

-- A server that accepts every message, and counts the requests.
abbrev accepting : SendWorld ℕ ℕ
accepting = record {
  has_http = true;
  token = codes "skype";
  send_messages_url = codes "https://teams/";
  path_escape = λ t. t;
  now_text = λ n. codes "now";
  refuses = λ req. none;
  executor = none;
  exchange = λ n req. creating;
  after = λ n req sent. n + sent;
  direct = λ n req. (suc n, inr created);
  until = λ t. none;
}

-- The properties of an important message with a subject.
abbrev titled : Assoc Text
titled = (codes "importance", codes "high") ∷ (codes "subject", codes "News") ∷ []

titled_made : with_subject (with_importance [] (codes "high")) (codes "News") ≡ titled
unfolding with_subject with_importance with_context_property ◌≗◌
titled_made = refl

titled-IsMap : IsMap titled
unfolding lookup ◌≗◌
titled-IsMap = (refl, (refl, tt))

-- A reply that mentions someone: one request, and its status.
reply_sent :
    send_formatted_message accepting 3 titled
      (codes " 19:a ")
      (codes "<p>hi</p>")
      (codes "8:me")
      (codes "77")
      (codes "12")
      (5 ∷ [])
    ≡ (4, 201, none)
unfolding send_formatted_message trim_space ◌≗◌ attempt
reply_sent = refl

send_formatted_message-Formatted_example :
    Formatted accepting 3 titled
      (codes " 19:a ")
      (codes "<p>hi</p>")
      (codes "8:me")
      (codes "77")
      (codes "12")
      (5 ∷ [])
      (send_formatted_message accepting 3 titled
        (codes " 19:a ")
        (codes "<p>hi</p>")
        (codes "8:me")
        (codes "77")
        (codes "12")
        (5 ∷ []))
send_formatted_message-Formatted_example =
    send_formatted_message-Formatted accepting 3 titled (codes " 19:a ") (codes "<p>hi</p>")
      (codes "8:me") (codes "77") (codes "12") (5 ∷ []) titled-IsMap

-- Both ends of a line.
written : format_html_content (codes "a<b\r\nc\rd\n\r") ≡ codes "<p>a&lt;b<br>c<br>d<br><br></p>"
unfolding format_html_content replace_after escape
written = refl

format_html_content_lem_example :
    format_html_content (codes "a<b\r\nc")
    ≡ codes "<p>" ++ written_lines false (codes "a<b\r\nc") ++ codes "</p>"
format_html_content_lem_example = format_html_content_lem (codes "a<b\r\nc")

thread_of_location_lem_example :
    thread_of_location (codes "https://teams/v1/threads" ++ b'/' ∷ (codes "19:a" ++ slashes 2))
    ≡ inr (codes "19:a")
thread_of_location_lem_example =
    thread_of_location_lem (codes "https://teams/v1/threads") (codes "19:a") 2 refl refl

-- The first member is the administrator.
members_made :
    new_members (codes "8:me" ∷ codes "8:ada" ∷ [])
    ≡ ((codes "id", codes "8:me") ∷ (codes "role", codes "Admin") ∷ [])
      ∷ ((codes "id", codes "8:ada") ∷ (codes "role", codes "User") ∷ [])
      ∷ []
unfolding new_members
members_made = refl
