-- ===== src/Tests/Chats.antt =====
-- Replies, previews, permission requests and the list of `/delete` on concrete inputs.
use agent_in_chat_feishu.Shared.{◌≡◌, refl, true, false, none, some, List, [], ◌∷◌, arith}
use agent_in_chat_feishu.Replies.{
  take_runes, drop_runes, last_newline, chunk_end, split_loop, split_message, truncate_if,
}
use agent_in_chat_feishu.Replies.Chunks.{Splits, split_message-Splits}
use agent_in_chat_feishu.StreamPreview
use agent_in_chat_feishu.StreamPreview.{
  StreamPreviewCfg, Platform, Answer, Call, StreamPreview, new_stream_preview,
  default_stream_preview_cfg, Act,
}
use agent_in_chat_feishu.StreamPreview.Covered.{covered, run-covered}
use agent_in_chat_feishu.StreamPreview.Shown.{Delivered, finish-run}
use agent_in_chat_feishu.DeleteBatch.{
  Parsed, split_char, contains_char, digits_value, atoi, seen, add_index, add_range, parse_ends,
  parse_range, parse_index, parse_part, parse_parts, and_then, digits_or_dashes,
  is_explicit_delete_batch_arg, parse_delete_batch_indices,
}
use agent_in_chat_feishu.DeleteBatch.Exact.{Adds, any_names, parse_delete_batch_indices-Adds}
use agent_in_chat_feishu.DeleteBatch.Errors.{is_parsed, all_good, parse_delete_batch_indices-good}
use agent_in_chat_feishu.Permissions.{
  UserQuestion, PendingPermission, Conversation, resolve_trimmed, callback_label, label_of,
  numbered_answer, handle_pending_permission,
}
use agent_in_chat_feishu.Permissions.Decisions.{DecidedBy, handle_pending_permission-DecidedBy}
use agent_in_chat_feishu.Permissions.Questions.{AllAnswered, answers_from, handle_all-AllAnswered}
use agent_in_chat_feishu.SessionKey
use agent_in_chat_feishu.Tests.Ascii.{ascii, trim_left}

-- The last newline in the second half of the window ends the chunk, and the newline is kept.
splits_at_newline : split_message "abcd\nefghi" 6 ≡ some ("abcd\n" ∷ "efghi" ∷ [])
unfolding split_message split_loop chunk_end last_newline take_runes drop_runes
splits_at_newline = refl

splits_at_limit : split_message "a\nbcdefghi" 6 ≡ some ("a\nbcde" ∷ "fghi" ∷ [])
unfolding split_message split_loop chunk_end last_newline take_runes drop_runes
splits_at_limit = refl

truncated : truncate_if "abcdef" 3 ≡ "abc..."
unfolding truncate_if take_runes
truncated = refl

split_message-Splits_example : Splits 6 "abcd\nefghi" (split_message "abcd\nefghi" 6)
split_message-Splits_example = split_message-Splits "abcd\nefghi" 6 (omega arith) (omega arith)

parsed_indices : parse_delete_batch_indices ascii "1, 3-5,4" 6 ≡ Parsed.parsed (1 ∷ 3 ∷ 4 ∷ 5 ∷ [])
unfolding parse_delete_batch_indices split_char contains_char digits_value atoi seen add_index
    add_range parse_ends parse_range parse_index parse_part parse_parts and_then ascii trim_left
parsed_indices = refl

explicit_batch : is_explicit_delete_batch_arg "3-5" ≡ true
unfolding is_explicit_delete_batch_arg contains_char digits_or_dashes
explicit_batch = refl

parse_delete_batch_indices-Adds_example :
    Adds 4 []
      (any_names ascii 4 (split_char b',' "1, 3-5,4"))
      (parse_delete_batch_indices ascii "1, 3-5,4" 6)
parse_delete_batch_indices-Adds_example = parse_delete_batch_indices-Adds ascii "1, 3-5,4" 6 4

parse_delete_batch_indices-good_example :
    is_parsed (parse_delete_batch_indices ascii "1,7-5" 6)
    ≡ all_good ascii 6 (split_char b',' "1,7-5")
parse_delete_batch_indices-good_example = parse_delete_batch_indices-good ascii "1,7-5" 6

abbrev feishu : Platform
feishu = record {
  name = "feishu";
  updates = true;
  starts = true;
  cleans = true;
  keep_preview_on_finish = some true;
}

-- Two texts, a second apart, and then the rest within the interval.
abbrev writing : List (Act default_stream_preview_cfg feishu "r1" (λ text. text))
writing =
    Act.appends "hello, world" 1 (Answer.okay (some "m1"))
    ∷ Act.appends ", how are you?" 2000000001 (Answer.okay none)
    ∷ Act.appends " bye" 2000000002 Answer.error
    ∷ []

run-covered_example :
    covered default_stream_preview_cfg feishu "r1"
      (λ text. text)
      writing
      (StreamPreview.run default_stream_preview_cfg feishu "r1"
        (λ text. text)
        writing
        new_stream_preview)
    ≡ true
run-covered_example = run-covered default_stream_preview_cfg feishu "r1" (λ text. text) writing

finish-run_example :
    Delivered default_stream_preview_cfg feishu "r1"
      (λ text. text)
      "hello"
      (StreamPreview.run default_stream_preview_cfg feishu "r1"
        (λ text. text)
        writing
        new_stream_preview)
      (StreamPreview.finish default_stream_preview_cfg feishu "r1"
        (λ text. text)
        "hello"
        (Answer.okay none)
        (StreamPreview.run default_stream_preview_cfg feishu "r1"
          (λ text. text)
          writing
          new_stream_preview))
finish-run_example =
    finish-run default_stream_preview_cfg feishu "r1" (λ text. text) writing "hello"
      (Answer.okay none)

abbrev colour : UserQuestion
colour = record { question = "Colour?"; options = "red" ∷ "blue" ∷ []; multi_select = false }

abbrev size : UserQuestion
size = record { question = "Size?"; options = "small" ∷ "large" ∷ []; multi_select = false }

abbrev asked : PendingPermission
asked = record {
  request_id = "q1";
  tool_input = [];
  questions = colour ∷ size ∷ [];
  collected = [];
  current_question = 0;
}

abbrev tool : PendingPermission
tool = record asked { request_id = "t1"; questions = [] }

abbrev waiting_for : PendingPermission → Conversation
waiting_for p = record {
  pending = some p;
  approve_all = false;
  responses = [];
  resolved = [];
  replies = [];
}

handle_pending_permission-DecidedBy_example :
    (d : Conversation) × (handle_pending_permission ascii " No" false (waiting_for tool)
      ≡ some (d, true))
    × DecidedBy tool (ascii.to_lower (ascii.trim_space " No")) (waiting_for tool) d
handle_pending_permission-DecidedBy_example =
    handle_pending_permission-DecidedBy ascii " No" false (waiting_for tool) tool refl refl

handle_all-AllAnswered_example :
    AllAnswered ascii false asked
      (answers_from ascii 0 (colour ∷ size ∷ []) ("2" ∷ "askq:1:1" ∷ []))
      ("2" ∷ "askq:1:1" ∷ [])
      (waiting_for asked)
handle_all-AllAnswered_example =
    handle_all-AllAnswered ascii false ("2" ∷ "askq:1:1" ∷ []) (waiting_for asked) asked refl refl
      refl (omega arith) refl

-- A button of the first question's card, pressed while the second question is open, answers the
-- second question.
stale_button : resolve_trimmed ascii size "askq:0:1" ≡ "small"
unfolding resolve_trimmed callback_label label_of atoi digits_value numbered_answer
    SessionKey.split_n SessionKey.cut_colon
stale_button = refl
