-- ===== src/Command/Lookup.antt =====
-- src/command.c: what GET answers behind a SET.
use redis_in_c.Prelude.{
  ◌≡◌, inl, inr, sym, subst, ap, ◌∙◌, if◌then◌else◌, Bytes, some, [], ◌∷◌, length, codes, IsWord,
}
use redis_in_c.Hashtable.{get_key, keys_equal}
use redis_in_c.Hashtable.Inv.{IsValid}
use redis_in_c.Hashtable.View.{get-stored}
use redis_in_c.Hashtable.Writes.{stored, stored-IsValid}
use redis_in_c.Hashtable.Sizes.{IsSized, stored-IsSized}
use redis_in_c.Resp.Reply.{status, encode}
use redis_in_c.Command.Context.{Ctx}
use redis_in_c.Command.Answers.{IsReady, Answered}
use redis_in_c.Command.Basic.{cmd_get, cmd_set}
use redis_in_c.Command.Values.{value_reply, cmd_get-Answered, cmd_set-Wrote}

-- From a ready state with no allocation refused and 64-bit sizes, a GET after a SET answers the
-- stored value at the key that was set, and at every other key what was there before, or nil.
pub set_then_get :
    (c : Ctx) (set get key val j : Bytes)
    → IsReady c
    → c.heap ≡ []
    → IsWord (length key)
    → IsWord (length val)
    → let c' = (cmd_set c (set ∷ key ∷ val ∷ [])).1 in
      Answered c' c'.store
        (encode (value_reply (if keys_equal key j then some val else get_key c.store j)))
        (cmd_get c' (get ∷ j ∷ []))
set_then_get c set get key val j r calm wk wv = elim (cmd_set-Wrote c (set ∷ key ∷ val ∷ []) r) [
  | inr (a, refused) ↦ absurd (refused calm)
  | inl a ↦ read a
]
  where
    after : Ctx
    after = (cmd_set c (set ∷ key ∷ val ∷ [])).1

    read :
        Answered c
          (stored c.store key val)
          (encode (status (codes "OK")))
          (cmd_set c (set ∷ key ∷ val ∷ []))
        → Answered after after.store
            (encode (value_reply (if keys_equal key j then some val else get_key c.store j)))
            (cmd_get after (get ∷ j ∷ []))
    read a =
        let ready : IsReady after = record {
          table = subst IsValid (sym a.kept) (stored-IsValid c.store key r.table val);
          sized = subst IsSized (sym a.kept) (stored-IsSized c.store key val wk wv r.sized);
          buffer = a.sent.valid;
        } in
        let found = ap (λ t. get_key t j) a.kept ∙ get-stored c.store r.table key val j in
        subst
          (λ o. Answered after after.store (encode (value_reply o)) (cmd_get after (get ∷ j ∷ [])))
          found (cmd_get-Answered after (get ∷ j ∷ []) ready)
