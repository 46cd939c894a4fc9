-- ===== src/Env/Count.antt =====
-- How often calls of a kind stand in a trace.
use nsvr.Prelude.{
  Option, none, some, List, ℕ, ◌+◌, Bool, true, false, ◌&&◌, [], ◌∷◌, ◌==◌, is_some, if◌then◌else◌,
}
use nsvr.Env.{
  Env, Call, Trace, Handle, gst_sample_unref, gst_app_sink_pull_preroll, gst_app_sink_pull_sample,
  g_main_context_iteration, gst_object_unref, gst_element_seek_simple,
}

abbrev pub one_if : Bool → ℕ
one_if b = if b then 1 else 0

abbrev pub push_some {ℓ} : {A : Type ℓ} → Option A → List A → List A
push_some none l = l
push_some (some a) l = a ∷ l

abbrev pub count : (Call → Bool) → Trace → ℕ
count p [] = 0
count p (c ∷ t) = one_if (p c) + count p t

-- Calls whose answer counts too.
abbrev pub count_answered : (Call → Bool) → (Trace → Bool) → Trace → ℕ
count_answered p answered [] = 0
count_answered p answered (c ∷ t) = one_if (p c && answered (c ∷ t)) + count_answered p answered t

abbrev pub is_sample_unref : Call → Bool
is_sample_unref (gst_sample_unref _) = true
is_sample_unref _ = false

abbrev pub is_pull : Call → Bool
is_pull (gst_app_sink_pull_preroll _) = true
is_pull (gst_app_sink_pull_sample _) = true
is_pull _ = false

abbrev pub is_seek : Call → Bool
is_seek (gst_element_seek_simple _ _) = true
is_seek _ = false

-- gst_object_unref of one object
abbrev pub is_unref_of : Handle → Call → Bool
is_unref_of h (gst_object_unref k) = k == h
is_unref_of h _ = false

-- The samples that the sink has handed out.
abbrev pub delivered : Env → Trace → ℕ
delivered env = count_answered is_pull (λ t. is_some (env.pull_sample t))

-- The seeks that the pipeline has accepted.
abbrev pub accepted_seeks : Env → Trace → ℕ
accepted_seeks env = count_answered is_seek env.seek_simple

-- A round of a main context
abbrev pub is_iteration : Call → Bool
is_iteration (g_main_context_iteration _) = true
is_iteration _ = false
