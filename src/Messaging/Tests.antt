-- ===== src/Messaging/Tests.antt =====
-- The publication theorems on the server in memory.
use central_config_stream.Prelude.{◌≤◌, refl, [], ◌∷◌, arith}
use central_config_stream.Text.{codes, is_label_char, byte_length}
use central_config_stream.Keys.Tokens.{IsToken, IsKey, last, dotted}
use central_config_stream.Messaging.Limits.{max_value_size}
use central_config_stream.Messaging.Publish.{publish_attempts, raw, publish}
use central_config_stream.Messaging.Publish.Safety.{Explained, publish-Justified}
use central_config_stream.Messaging.Publish.Progress.{Holds, publish-raw-Holds}
use central_config_stream.Messaging.Sample.{Server, memory_kv}
use central_config_stream.Messaging.Sample.Laws.{memory_laws, memory_quiet}

-- a bucket that holds an older document under "7.3"
abbrev older : Server
older = record { cells = ((codes "S", codes "7.3"), (codes "old", 4)) ∷ []; last = 5 }

publish-Justified_example :
    Explained memory_kv memory_laws
      (codes "S")
      (codes "7.3")
      (λ _. raw (codes "new"))
      publish_attempts
      older
      (publish memory_kv (codes "S") (codes "7.3") (λ _. raw (codes "new")) older).0
      (publish memory_kv (codes "S") (codes "7.3") (λ _. raw (codes "new")) older).1
publish-Justified_example =
    publish-Justified memory_kv memory_laws (codes "S") (codes "7.3") (λ _. raw (codes "new")) older

digit-IsToken : IsToken (codes "7")
unfolding is_label_char
digit-IsToken = record { nonempty = refl; label = refl }

other-IsToken : IsToken (codes "3")
unfolding is_label_char
other-IsToken = record { nonempty = refl; label = refl }

new-IsKey : IsKey (codes "7.3")
new-IsKey = dotted (codes "7") (codes "3") digit-IsToken (last (codes "3") other-IsToken)

new_small : byte_length (codes "new") ≤ max_value_size
unfolding byte_length
new_small = omega arith

publish-raw-Holds_example :
    Holds memory_laws
      (publish memory_kv (codes "S") (codes "7.3") (λ _. raw (codes "new")) older).1
      (codes "S")
      (codes "7.3")
      (codes "new")
publish-raw-Holds_example =
    publish-raw-Holds memory_kv memory_laws memory_quiet (codes "S") (codes "7.3") (codes "new")
      older new-IsKey new_small
