-- ===== src/Client/Subscriptions/Tests.antt =====
-- The theorems on subscriptions at a client with two channels.
use redisclient.Base.{◌≡◌, ◌++◌, refl, [], ◌∷◌, codes}
use redisclient.Client.{Client, new_impl, subscribed, returns, Env, MsgHandler, SingleShot}
use redisclient.Client.Subscriptions.{subscribe, single_shot_subscribe, unsubscribe}
use redisclient.Client.Messages.{do_process_message}
use redisclient.Client.Messages.Delivery.{three, messages}
use redisclient.Client.Subscriptions.Registry.{
  registry, insert, insert_shot, remove, spend_shot, receivers_of, subscriptions-registry,
  delivery-registry,
}

-- The user's functions return at once.
abbrev quiet : Env
quiet = record {
  on_reply = λ h v c. returns tt c;
  on_message = λ h payload c. returns tt c;
  on_connect = λ h ec c. returns tt c;
  on_error = λ h s c. returns tt c;
  error_text = λ ec. codes "error";
}

abbrev news : MsgHandler
news = record { channel = codes "news"; id = 0; handler = 4 }

abbrev mail : MsgHandler
mail = record { channel = codes "mail"; id = 1; handler = 5 }

abbrev once : SingleShot
once = record { channel = codes "news"; handler = 6 }

abbrev two_channels : Client
two_channels = record new_impl {
  state = subscribed;
  subscribe_seq = 2;
  msg_handlers = news ∷ mail ∷ [];
  single_shot = once ∷ [];
}

subscriptions-registry_example :
    ((d : Client) × (subscribe quiet (codes "subscribe") (codes "news") 7 8 two_channels
        ≡ returns 2 d)
      × (registry d ≡ insert (codes "news") 2 7 (registry two_channels)))
    × ((d : Client) × (single_shot_subscribe quiet
            (codes "subscribe")
            (codes "news")
            7
            8
            two_channels
          ≡ returns tt d)
        × (registry d ≡ insert_shot (codes "news") 7 (registry two_channels)))
    × ((d : Client) × (unsubscribe quiet (codes "subscribe") 0 (codes "news") 8 two_channels
          ≡ returns tt d)
        × (registry d ≡ remove (codes "news") 0 (registry two_channels)))
subscriptions-registry_example =
    subscriptions-registry quiet (codes "subscribe") (codes "news") 7 8 0 two_channels refl

delivery-registry_example :
    (d : Client) × (do_process_message quiet
        (three (codes "message") (codes "news") (codes "hi"))
        two_channels
      ≡ returns tt d)
    × (d.posted ≡ [] ++ messages (receivers_of (codes "news") (registry two_channels)) (codes "hi"))
    × (registry d ≡ spend_shot (codes "news") (registry two_channels))
delivery-registry_example = delivery-registry quiet (codes "news") (codes "hi") two_channels refl
