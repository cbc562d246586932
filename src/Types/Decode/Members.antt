-- ===== src/Types/Decode/Members.antt =====
-- What json.Unmarshal reads into the cluster and the infra-envs of an EnrichedEvent.
use mathlib.Core.Path.{subst}
use assisted_events_stream.Prelude.{
  String, ◌≡◌, refl, sym, ◌∙◌, inl, inr, Bool, true, false, Option, none, some, List, [],
  if◌then◌else◌,
}
use assisted_events_stream.Value.{Value, obj, Fields, end, field, Map}
use assisted_events_stream.Types.{Error, HostsSummary, EnrichedEvent}
use assisted_events_stream.Types.Decode.{equal_fold}
use assisted_events_stream.Types.Decode.Enriched.{
  Decoded, first_error, decode_list, decode_member, decode_members, decode_enriched_event,
  zero_enriched_event,
}
use assisted_events_stream.Types.Decode.Only.{NoMember, Only}

-- What both branches have.
if_both :
    (P : Decoded EnrichedEvent → Type 0) (b : Bool) (x y : Decoded EnrichedEvent)
    → P x
    → P y
    → P (if b then x else y)
if_both P true x y p q = p
if_both P false x y p q = q

-- the infra-envs that a member holds, or none
abbrev pub infra_envs_in : Option Value → List Map
infra_envs_in none = []
infra_envs_in (some x) = (decode_list x []).0

module _ (decode_summary : Value → Option HostsSummary → Decoded (Option HostsSummary)) where
  decode_member-cluster :
      (k : String) (v : Value) (t : EnrichedEvent)
      → equal_fold k "cluster" ≡ false
      → (decode_member decode_summary k v t).0.cluster ≡ t.cluster
  unfolding decode_member
  decode_member-cluster k v t ne =
      let P = λ (r : Decoded EnrichedEvent). r.0.cluster ≡ t.cluster in
      rw ne (
        if_both P (equal_fold k "id") _ _ refl (
          if_both P (equal_fold k "message") _ _ refl (
            if_both P (equal_fold k "category") _ _ refl (
              if_both P (equal_fold k "cluster_id") _ _ refl (
                if_both P (equal_fold k "event_time") _ _ refl (
                  if_both P (equal_fold k "host_summary") _ _ refl (
                    if_both P (equal_fold k "name") _ _ refl (
                      if_both P (equal_fold k "request_id") _ _ refl (
                        if_both P (equal_fold k "severity") _ _ refl (
                          if_both P (equal_fold k "event") _ _ refl (
                            if_both P (equal_fold k "infra_envs") _ _ refl (
                              if_both P (equal_fold k "versions") _ _ refl
                                (if_both P (equal_fold k "release_tag") _ _ refl refl)))))))))))))

  decode_member-infra_envs :
      (k : String) (v : Value) (t : EnrichedEvent)
      → equal_fold k "infra_envs" ≡ false
      → (decode_member decode_summary k v t).0.infra_envs ≡ t.infra_envs
  unfolding decode_member
  decode_member-infra_envs k v t ne =
      let P = λ (r : Decoded EnrichedEvent). r.0.infra_envs ≡ t.infra_envs in
      rw ne (
        if_both P (equal_fold k "id") _ _ refl (
          if_both P (equal_fold k "message") _ _ refl (
            if_both P (equal_fold k "category") _ _ refl (
              if_both P (equal_fold k "cluster_id") _ _ refl (
                if_both P (equal_fold k "event_time") _ _ refl (
                  if_both P (equal_fold k "host_summary") _ _ refl (
                    if_both P (equal_fold k "name") _ _ refl (
                      if_both P (equal_fold k "request_id") _ _ refl (
                        if_both P (equal_fold k "severity") _ _ refl (
                          if_both P (equal_fold k "event") _ _ refl (
                            if_both P (equal_fold k "cluster") _ _ refl (
                              if_both P (equal_fold k "versions") _ _ refl
                                (if_both P (equal_fold k "release_tag") _ _ refl refl)))))))))))))

  cluster_unset :
      (m : Fields) (t : EnrichedEvent) (e : Option Error)
      → NoMember "cluster" m
      → (decode_members decode_summary m t e).0.cluster ≡ t.cluster
  unfolding decode_members
  cluster_unset end t e h = refl
  cluster_unset (field k v m) t e (n, h) =
      let (t', e') = decode_member decode_summary k v t in
      cluster_unset m t' (first_error e e') h ∙ decode_member-cluster k v t n

  cluster_set :
      (c m : Fields) (t : EnrichedEvent) (e : Option Error)
      → Only "cluster" (some (obj c)) m
      → t.cluster ≡ none
      → (decode_members decode_summary m t e).0.cluster ≡ some c
  unfolding decode_members
  cluster_set c end t e h z = absurd h
  cluster_set c (field k v m) t e (inr (n, h)) z =
      let (t', e') = decode_member decode_summary k v t in
      cluster_set c m t' (first_error e e') h (decode_member-cluster k v t n ∙ z)
  cluster_set c (field k v m) t e (inl (same, is_c, h)) z =
      let (t', e') = decode_member decode_summary k v t in
      cluster_unset m t' (first_error e e') h
      ∙ subst (λ (j : String). (decode_member decode_summary j v t).0.cluster ≡ some c) (sym same)
          (read c v t is_c z)
    where
      read :
          (c : Fields) (v : Value) (t : EnrichedEvent)
          → v ≡ obj c
          → t.cluster ≡ none
          → (decode_member decode_summary "cluster" v t).0.cluster ≡ some c
      read c v t is_c z = rw (is_c, z) refl

  infra_envs_unset :
      (m : Fields) (t : EnrichedEvent) (e : Option Error)
      → NoMember "infra_envs" m
      → (decode_members decode_summary m t e).0.infra_envs ≡ t.infra_envs
  unfolding decode_members
  infra_envs_unset end t e h = refl
  infra_envs_unset (field k v m) t e (n, h) =
      let (t', e') = decode_member decode_summary k v t in
      infra_envs_unset m t' (first_error e e') h ∙ decode_member-infra_envs k v t n

  infra_envs_set :
      (x : Value) (m : Fields) (t : EnrichedEvent) (e : Option Error)
      → Only "infra_envs" (some x) m
      → t.infra_envs ≡ []
      → (decode_members decode_summary m t e).0.infra_envs ≡ (decode_list x []).0
  unfolding decode_members
  infra_envs_set x end t e h z = absurd h
  infra_envs_set x (field k v m) t e (inr (n, h)) z =
      let (t', e') = decode_member decode_summary k v t in
      infra_envs_set x m t' (first_error e e') h (decode_member-infra_envs k v t n ∙ z)
  infra_envs_set x (field k v m) t e (inl (same, is_x, h)) z =
      let (t', e') = decode_member decode_summary k v t in
      infra_envs_unset m t' (first_error e e') h
      ∙ subst
          (λ (j : String). (decode_member decode_summary j v t).0.infra_envs ≡ (decode_list x []).0)
          (sym same) (read x v t is_x z)
    where
      read :
          (x v : Value) (t : EnrichedEvent)
          → v ≡ x
          → t.infra_envs ≡ []
          → (decode_member decode_summary "infra_envs" v t).0.infra_envs ≡ (decode_list x []).0
      read x v t is_x z = rw (is_x, z) refl

  pub cluster-decode_enriched_event :
      (c m : Fields)
      → Only "cluster" (some (obj c)) m
      → (decode_enriched_event decode_summary (some (obj m)) zero_enriched_event).0.cluster ≡ some c
  unfolding decode_enriched_event
  cluster-decode_enriched_event c m h = cluster_set c m zero_enriched_event none h refl

  pub infra_envs-decode_enriched_event :
      (o : Option Value) (m : Fields)
      → Only "infra_envs" o m
      → (decode_enriched_event decode_summary (some (obj m)) zero_enriched_event).0.infra_envs
        ≡ infra_envs_in o
  unfolding decode_enriched_event
  infra_envs-decode_enriched_event none m h = infra_envs_unset m zero_enriched_event none h
  infra_envs-decode_enriched_event (some x) m h = infra_envs_set x m zero_enriched_event none h refl
