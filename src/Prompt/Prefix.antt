-- ===== src/Prompt/Prefix.antt =====
-- prompt.py: what a provider's prefix cache needs of the prompts of a session, and what the history
-- lets in.
use smart_router.Prelude.{
  true, false, Option, List, [], ◌∷◌, ◌++◌, String, ◌≡◌, refl, ap, ◌∙◌, sym, All, All-append,
  length, take, Bool-cases, inl, inr,
}
use smart_router.Prelude.Strings.{contains}
use smart_router.Schemas.Message.{Text}
use smart_router.Prompt.{
  PromptMessage, Injectable, ConversationHistory, Hash, append, assemble, chain_from, prefix_chain,
  is_clean_role, rule_sentinel, tool_block, context_block, system_message,
}

module _ {S : Type 0} where
  -- the chain of a longer list begins with the chain of the shorter
  take-chain_from :
      (h : Hash S) (s : S) (ms ns : List PromptMessage)
      → take (length ms) (chain_from h s (ms ++ ns)) ≡ chain_from h s ms
  unfolding chain_from
  take-chain_from h s [] ns = refl
  take-chain_from h s (m ∷ ms) ns =
      ap (λ t. h.hexdigest (h.update m s) ∷ t) (take-chain_from h (h.update m s) ms ns)

append_assoc {ℓ} : {A : Type ℓ} (xs ys zs : List A) → (xs ++ ys) ++ zs ≡ xs ++ (ys ++ zs)
append_assoc [] ys zs = refl
append_assoc (x ∷ xs) ys zs = ap (λ t. x ∷ t) (append_assoc xs ys zs)

-- Two turns of a session, with any rules and any current turns: if the later history is the
-- earlier one and more messages, the prefix of the later prompt is the earlier prefix and those messages.
prefix-assemble :
    (system : Text) (tools context : Option Text) (history more : ConversationHistory)
    (rules rules' : List Injectable) (turn turn' : Text)
    → (assemble system tools context (history ++ more) rules' turn').prefix
      ≡ (assemble system tools context history rules turn).prefix ++ more
unfolding assemble
prefix-assemble system tools context history more rules rules' turn turn' =
    ap (λ t. system_message system ∷ t)
      (sym (append_assoc (tool_block tools ++ context_block context) history more))

-- Turns of one session share the cacheable region: with the same system text, tools and tenant
-- context, and a later history that is the earlier one and more messages, the fingerprint chain
-- of the later prompt begins with the whole chain of the earlier one, whatever rules are injected
-- and whatever the current turns are.
pub prefix_chain-assemble :
    {S : Type 0} (h : Hash S) (system : Text) (tools context : Option Text)
    (history more : ConversationHistory) (rules rules' : List Injectable) (turn turn' : Text)
    → take
        (length (assemble system tools context history rules turn).prefix)
        (prefix_chain h (assemble system tools context (history ++ more) rules' turn'))
      ≡ prefix_chain h (assemble system tools context history rules turn)
unfolding prefix_chain
prefix_chain-assemble h system tools context history more rules rules' turn turn' =
    let earlier = (assemble system tools context history rules turn).prefix in
    ap (λ ms. take (length earlier) (chain_from h h.initial ms))
      (prefix-assemble system tools context history more rules rules' turn turn')
    ∙ take-chain_from h h.initial earlier more

-- a message of a user, an assistant or a tool, with no rule block in it
pub record IsClean (m : PromptMessage) : Type 0 where
  pub role : is_clean_role m.role ≡ true
  pub content : contains rule_sentinel m.content ≡ false

-- the calls of `append` of a session, each caught if it raises
unfoldable pub append_all : List (String × Text) → ConversationHistory → ConversationHistory
append_all [] h = h
append_all ((role, content) ∷ rest) h = append_all rest (append role content h).1

append-IsClean :
    (role : String) (content : Text) (h : ConversationHistory)
    → All IsClean h
    → All IsClean (append role content h).1
unfolding append
append-IsClean role content h a = elim (Bool-cases (is_clean_role role)) [
  | inr unclean ↦ rw unclean a
  | inl clean ↦ elim (Bool-cases (contains rule_sentinel content)) [
    | inl marked ↦ rw (clean, marked) a
    | inr plain ↦
        rw (clean, plain)
          (All-append IsClean h (record { role = role; content = content } ∷ []) a
            (record { role = clean; content = plain }, tt))
  ]
]

-- Whatever is given to `append`, call after call, a history that holds only messages of clean
-- roles with no injected rule block keeps to that; a call that raises leaves it as it is.
pub append_all-IsClean :
    (calls : List (String × Text)) (h : ConversationHistory)
    → All IsClean h
    → All IsClean (append_all calls h)
unfolding append_all
append_all-IsClean [] h a = a
append_all-IsClean ((role, content) ∷ rest) h a =
    append_all-IsClean rest (append role content h).1 (append-IsClean role content h a)
