-- ===== src/Examples/Errors.antt =====
-- The theorems on error groups and the error flusher, at concrete inputs.
use intelligent_odoo_dev_too.Prelude.{
  ◌+◌, ◌≡◌, refl, true, none, some, List, [], ◌∷◌, ◌++◌, map, count_if, arith, if◌then◌else◌,
}
use intelligent_odoo_dev_too.Prelude.Int.{pos}
use intelligent_odoo_dev_too.Prelude.Text.{Bytes, codes, contains, after_last}
use intelligent_odoo_dev_too.Ringbuf.{RingBuffer}
use intelligent_odoo_dev_too.Ringbuf.Slots.{IsValid}
use intelligent_odoo_dev_too.Ringbuf.Refine.{contents, length-contents}
use intelligent_odoo_dev_too.Errors.Signature.{
  Library, is_digit, placeholder, first_non_empty, normalize_message, match_frame,
  extract_origin_frame, generate_signature,
}
use intelligent_odoo_dev_too.Errors.Signature.Collapse.{normalize_message-ends}
use intelligent_odoo_dev_too.Errors.Signature.Frames.{
  Traceback, IsPrinted, print, extract_origin_frame-print,
}
use intelligent_odoo_dev_too.Errors.Signature.Grouping.{IsSameCode, generate_signature-same_code}
use intelligent_odoo_dev_too.Errors.Flusher.{
  ErrorEvent, no_event, payload_of, Flusher, Server, Tick, flush, run_loop,
}
use intelligent_odoo_dev_too.Errors.Flusher.Outcome.{Settled, flush-Settled}
use intelligent_odoo_dev_too.Errors.Flusher.Rounds.{run_loop-Conserved}

-- Each digit is replaced by a placeholder, and the hash is the text.
abbrev mask : Bytes → Bytes
mask [] = []
mask (c ∷ s) = let rest = mask s in if is_digit c then placeholder ++ rest else c ∷ rest

abbrev digits_masked : Library
digits_masked = record {
  replace_dynamic = mask;
  hash16 = λ s. s;
  unicode_trim = λ s. s;
  unicode_fields = λ s. s;
}

normalize_message-ends_example : normalize_message digits_masked 9 (codes "Record 42") ≡ none
unfolding contains first_non_empty
normalize_message-ends_example = normalize_message-ends digits_masked 9 (codes "Record 42")

abbrev confirm_at : Bytes → Bytes → Traceback
confirm_at root number = record {
  before = codes "Traceback (most recent call last):" ∷ [];
  indent = codes "  ";
  frame = record {
    file = root ++ codes "/addons/sale/order.py";
    line = number;
    function = codes "action_confirm";
  };
  after = codes "ValueError: bad" ∷ [];
}

abbrev on_server : Traceback
on_server = confirm_at (codes "/opt/odoo") (codes "42")

abbrev on_laptop : Traceback
on_laptop = confirm_at (codes "/src") (codes "57")

on_server-IsPrinted : IsPrinted on_server
unfolding match_frame
on_server-IsPrinted = record {
  blank_indent = refl;
  file_named = refl;
  line_numbered = refl;
  function_named = refl;
  one_line_each = refl;
  last = refl;
}

on_laptop-IsPrinted : IsPrinted on_laptop
unfolding match_frame
on_laptop-IsPrinted = record {
  blank_indent = refl;
  file_named = refl;
  line_numbered = refl;
  function_named = refl;
  one_line_each = refl;
  last = refl;
}

extract_origin_frame-print_example : extract_origin_frame (print on_server) ≡ on_server.frame
extract_origin_frame-print_example = extract_origin_frame-print on_server on_server-IsPrinted

same_code : IsSameCode on_server on_laptop
unfolding after_last
same_code = record {
  prefix = codes "/opt/odoo";
  prefix' = codes "/src";
  path = codes "sale/order.py";
  file = refl;
  file' = refl;
  no_later = refl;
  function = refl;
}

generate_signature-same_code_example :
    generate_signature digits_masked 3 (codes "ValueError") (codes "bad") (print on_server)
    ≡ generate_signature digits_masked 3 (codes "ValueError") (codes "bad") (print on_laptop)
generate_signature-same_code_example =
    generate_signature-same_code digits_masked 3 (codes "ValueError") (codes "bad") on_server
      on_laptop on_server-IsPrinted on_laptop-IsPrinted same_code

-- A server that accepts nothing with its first key and refreshes it, and one that is down.
abbrev expired : Server
expired = record {
  marshal = λ payload. some (codes "batch");
  first_post = λ endpoint body key. some 401;
  second_post = λ endpoint body key. some 200;
  api_key = codes "old";
  refresh = some (codes "new");
}

abbrev down : Server
down = record expired { first_post = λ endpoint body key. none }

abbrev flusher : Flusher
flusher = record {
  server_url = codes "https://host";
  flusher_env_id = codes "env";
  threshold = pos 0;
}

abbrev event_of : Bytes → ErrorEvent
event_of message = record no_event { message = message }

abbrev holding_one : RingBuffer ErrorEvent
holding_one = record {
  items = event_of (codes "first") ∷ no_event ∷ no_event ∷ [];
  head = 1;
  count = 1;
}

holding_one-IsValid : IsValid holding_one
holding_one-IsValid = record {
  nonempty = omega arith;
  head_in = omega arith;
  count_in = omega arith;
}

flush-Settled_example :
    Settled flusher down 3
      (contents no_event holding_one)
      (event_of (codes "second") ∷ [])
      (flush flusher down (event_of (codes "second") ∷ []) holding_one)
flush-Settled_example =
    flush-Settled flusher down (event_of (codes "second") ∷ []) holding_one
      (λ payload. (codes "batch", refl)) holding_one-IsValid

abbrev ticks : List Tick
ticks =
    record { pushed_before = []; server = down; pushed_during = event_of (codes "second") ∷ [] }
    ∷ record { pushed_before = []; server = expired; pushed_during = [] }
    ∷ []

run_loop-Conserved_example :
    count_if (λ payload. true) (run_loop flusher ticks holding_one).0
      + count_if
          (λ payload. true)
          (map payload_of (contents no_event (run_loop flusher ticks holding_one).1))
    ≡ count_if (λ payload. true) (map payload_of (contents no_event holding_one)) + 1
run_loop-Conserved_example =
    run_loop-Conserved (λ payload. true) flusher 3 ticks holding_one
      ((λ payload. (codes "batch", refl)), ((λ payload. (codes "batch", refl)), tt))
      (holding_one-IsValid, refl) (omega (arith, length-contents no_event holding_one))
