-- ===== src/Examples/Deliveries.antt =====
-- The theorems on the outgoing webhooks, at the example's delivery.
use python_workflow_service.Prelude.{length, ◌≡◌, refl}
use python_workflow_service.Prelude.Text.{strip}
use python_workflow_service.Webhooks.{
  validate_outbound_webhook_url, check_parsed, check_port, check_address, validate_resolved_ips,
  is_blocked_ip, has_credentials, is_local,
}
use python_workflow_service.Webhooks.{post_webhook, build_request, sign_webhook_payload}
use python_workflow_service.Webhooks.Guard.{IsSafe, validate_outbound_webhook_url-IsSafe}
use python_workflow_service.Webhooks.Worker.{
  post_with_retries, deliver_webhook, attempt_from, post_item, pause,
}
use python_workflow_service.Webhooks.Worker.Progress.{Delivered, deliver_webhook-Delivered}
use python_workflow_service.Webhooks.Worker.Attempts.{Sent, Ends, Counted, post_with_retries_lem}
use python_workflow_service.Value.{py_str}
use python_workflow_service.Value.Dict.{get}
use python_workflow_service.Examples.{net, quiet, delivery, full_outbox}

validate_outbound_webhook_url-IsSafe_example :
    ("https://hooks.example/in" ≡ strip " https://hooks.example/in ")
    × IsSafe net 0 "https://hooks.example/in"
unfolding validate_outbound_webhook_url check_parsed check_port check_address validate_resolved_ips
    is_blocked_ip has_credentials is_local
validate_outbound_webhook_url-IsSafe_example =
    validate_outbound_webhook_url-IsSafe net " https://hooks.example/in " quiet
      "https://hooks.example/in" refl

post_with_retries_lem_example :
    Sent net " https://hooks.example/in " 2 quiet (post_with_retries net delivery quiet).1
    × Ends 2 3 (post_with_retries net delivery quiet).0
    × Counted net 1 quiet (post_with_retries net delivery quiet)
unfolding get py_str
post_with_retries_lem_example = post_with_retries_lem net delivery quiet

deliver_webhook-Delivered_example :
    Delivered delivery full_outbox.db (deliver_webhook net (λ item. 12) delivery full_outbox)
unfolding get py_str
deliver_webhook-Delivered_example =
    deliver_webhook-Delivered net (λ item. 12) delivery full_outbox delivery refl refl refl

-- A delivery whose endpoint answers 500 is posted twice only: its first attempt is counted before it is made.
two_posts : length (post_with_retries net delivery quiet).1.posts ≡ 2
unfolding post_with_retries attempt_from post_item post_webhook pause build_request
    sign_webhook_payload validate_outbound_webhook_url check_parsed check_port check_address
    validate_resolved_ips is_blocked_ip has_credentials is_local get py_str
two_posts = refl
