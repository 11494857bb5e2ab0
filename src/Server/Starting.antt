-- ===== src/Server/Starting.antt =====
-- src/networking.c: before the first event, no command has arrived whole.
use redis_in_c.Prelude.{ℕ, zero, suc, refl, append-nil, Bytes, List, [], take}
use redis_in_c.Bytebuf.{live}
use redis_in_c.Connection.{Conn}
use redis_in_c.Connection.Serial.{Command}
use redis_in_c.Server.{Server}
use redis_in_c.Server.Services.{Service}
use redis_in_c.Server.Order.{Order}
use redis_in_c.Server.Linear.{AreOpen, Prompt}

module _ (IsClient : ℕ → Type 0) (rest : ℕ → Bytes) (conns : ℕ → Conn) (asks : ℕ → List Command)
    (s : Server) where
  pub Prompt-none :
      (vs : List Service) (order : Order)
      → AreOpen IsClient rest s conns asks vs
      → Prompt IsClient rest conns order []
  Prompt-none vs order a = record {
    first = [];
    last = order;
    split = refl;
    come = λ g c.
        (live (conns g).in_buf, append-nil (live (conns g).in_buf), (a.opens g c).waiting.idle);
  }

  pub Prompt-nil :
      AreOpen IsClient rest s conns asks [] → (n : ℕ) → Prompt IsClient rest conns [] (take n [])
  Prompt-nil a zero = Prompt-none [] [] a
  Prompt-nil a (suc n) = Prompt-none [] [] a
