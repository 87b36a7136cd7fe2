-- ===== src/Client/Tests.antt =====
-- The theorems on the client at concrete clients, commands and replies.
use redisclient.Client.Messages.Chunks.{Read, values_by, process_reads, read_all}
use redisclient.Client.Messages.Chunks.Stream.{last_parser, read_all-print}
use redisclient.Socket.Writing.{joined}
use redisclient.Decimal.{decimal_ℤ, decimal, digits}
use redisclient.Base.{◌≡◌, refl, List, [], ◌∷◌, map, Bytes, codes, arith}
use redisclient.Base.Int.{pos}
use redisclient.Value.{int_value, bytes_value}
use redisclient.Parser.{is_char, is_control}
use redisclient.Parser.Loop.{result_of}
use redisclient.Parser.Invariant.{IsIdle, new_parser-IsIdle}
use redisclient.Resp.{
  Replies, none_left, more, status, integer, print, print_all, ArePrintable, is_text,
}
use redisclient.Client.{Client, new_impl, connected, subscribed, returns, Env, MsgHandler}
use redisclient.Client.Queue.{start_write}
use redisclient.Client.Queue.Order.{Command}
use redisclient.Client.Messages.Safety.{Keeps-refl, IsPolite}
use redisclient.Client.Subscriptions.{subscribe, unsubscribe}
use redisclient.Client.Subscriptions.Handles.{
  HasHandles, with_subscription, without_subscription, subscribe-HasHandles, unsubscribe-one,
}

-- The user's functions return at once.
abbrev quiet : Env
quiet = record {
  on_reply = λ h v c. returns tt c;
  on_message = λ h payload c. returns tt c;
  on_connect = λ h ec c. returns tt c;
  on_error = λ h s c. returns tt c;
  error_text = λ ec. codes "error";
}

quiet-IsPolite : IsPolite quiet
quiet-IsPolite q = record {
  reply_keeps = λ h v c. Keeps-refl (λ p. p ≡ q) c;
  error_keeps = λ h s c. Keeps-refl (λ p. p ≡ q) c;
}

abbrev ready : Client
ready = record new_impl { state = connected }

abbrev get : Command
get = record { buff = codes "*1\r\n$3\r\nGET\r\n"; handler = 7 }

abbrev ping : Command
ping = record { buff = codes "*1\r\n$4\r\nPING\r\n"; handler = 8 }

-- Two commands, the first reply, and the end of the first write.
abbrev sent_get : Client
sent_get = start_write (record ready { handlers = 7 ∷ []; data_queued = get.buff ∷ [] })

abbrev both_given : Client
both_given = record sent_get { handlers = 7 ∷ 8 ∷ []; data_queued = ping.buff ∷ [] }

abbrev answered_one : Client
answered_one = record both_given { handlers = 8 ∷ [] }

abbrev two_replies : Replies
two_replies = more (integer (pos 5)) none_left

two_replies-ArePrintable : ArePrintable (more (status (codes "OK")) two_replies)
unfolding is_text is_char is_control
two_replies-ArePrintable = ((refl, (refl, tt)), (omega arith, tt))

-- The same two replies, in three reads
abbrev three_chunks : List Bytes
three_chunks = codes "+O" ∷ codes "K\r\n:" ∷ codes "5\r\n" ∷ []

three_chunks-print_all : joined three_chunks ≡ print_all (more (status (codes "OK")) two_replies) []
unfolding print decimal_ℤ decimal digits
three_chunks-print_all = refl

values_by_runs :
    values_by (more (status (codes "OK")) two_replies) three_chunks
    ≡ [] ∷ (bytes_value (codes "OK") ∷ []) ∷ (int_value (pos 5) ∷ []) ∷ []
unfolding print decimal_ℤ decimal digits
values_by_runs = refl

read_all-print_example :
    (gs : List Read) × (map (λ (g : Read). map result_of g.messages) gs
      ≡ values_by (more (status (codes "OK")) two_replies) three_chunks)
    × IsIdle (last_parser both_given.redis_parser gs)
    × (read_all quiet three_chunks both_given ≡ process_reads quiet gs both_given)
read_all-print_example =
    read_all-print quiet three_chunks (more (status (codes "OK")) two_replies) both_given
      quiet-IsPolite two_replies-ArePrintable (omega arith) three_chunks-print_all new_parser-IsIdle

abbrev entry : MsgHandler
entry = record { channel = codes "news"; id = 0; handler = 4 }

abbrev other_entry : MsgHandler
other_entry = record { channel = codes "news"; id = 1; handler = 5 }

abbrev listening : Client
listening = record ready {
  state = subscribed;
  subscribe_seq = 2;
  msg_handlers = entry ∷ other_entry ∷ [];
}

subscribe-HasHandles_example :
    let added : MsgHandler = record { channel = codes "sport"; id = 2; handler = 6 } in
    let d = with_subscription (codes "subscribe") added 0 listening in
    (subscribe quiet (codes "subscribe") (codes "sport") 6 0 listening ≡ returns 2 d) × HasHandles d
subscribe-HasHandles_example =
    subscribe-HasHandles quiet (codes "subscribe") (codes "sport") 6 0 listening refl (omega arith)
      (omega arith)

unsubscribe-one_example :
    let d = without_subscription (codes "unsubscribe") entry 0 (other_entry ∷ []) listening in
    (unsubscribe quiet (codes "unsubscribe") 0 (codes "news") 0 listening ≡ returns tt d)
    × HasHandles d
unsubscribe-one_example =
    unsubscribe-one quiet (codes "unsubscribe") 0 listening [] entry (other_entry ∷ []) refl
      (omega arith) refl
