-- ===== src/Plugins/Secrets.antt =====
-- Which secrets an output plugin reads, and in which order: its parameters fail exactly where one of
-- them fails to load, with the error of the first that does.
use mathlib.Core.List.{◌++◌, append-nil}
use fluentbit_operator.Prelude.{◌≡◌, refl, ap, ◌∙◌, String, Option, none, some, List, [], ◌∷◌}
use fluentbit_operator.Result.{Result, ok, err, ◌>>=◌}
use fluentbit_operator.Params.{Kvs, insert, merge}
use fluentbit_operator.Plugins.{Secret, SecretLoader, load_secret, insert_secret}
use fluentbit_operator.Plugins.Tls
use fluentbit_operator.Plugins.Tls.{Tls, merge_tls}
use fluentbit_operator.Plugins.Output.{
  OutputPlugin, elasticsearch, file, forward, http, kafka, null, stdout, tcp, loki, syslog, datadog,
  params,
}
use fluentbit_operator.Plugins.Output.Elasticsearch
use fluentbit_operator.Plugins.Output.File
use fluentbit_operator.Plugins.Output.Forward
use fluentbit_operator.Plugins.Output.Http
use fluentbit_operator.Plugins.Output.Kafka
use fluentbit_operator.Plugins.Output.Null
use fluentbit_operator.Plugins.Output.Stdout
use fluentbit_operator.Plugins.Output.Tcp
use fluentbit_operator.Plugins.Output.Loki
use fluentbit_operator.Plugins.Output.Syslog
use fluentbit_operator.Plugins.Output.DataDog

-- Whether a call fails, and with which error.
abbrev pub forget {ℓ} : {A : Type ℓ} → Result A → Result (Unit {0})
forget (ok a) = ok tt
forget (err e) = err e

-- Loading secrets one after the other, until one fails.
unfoldable pub load_all : SecretLoader → List Secret → Result (Unit {0})
load_all sl [] = ok tt
load_all sl (s ∷ ss) = do v ← load_secret sl s; load_all sl ss

unfoldable pub if_set : Option Secret → List Secret
if_set none = []
if_set (some s) = s ∷ []

unfoldable pub of_tls : Option Tls → List Secret
unfolding if_set
of_tls none = []
of_tls (some t) = if_set t.key_password

-- The secrets that an output plugin names, in the order in which it reads them.
unfoldable pub output_secrets : OutputPlugin → List Secret
unfolding if_set of_tls
output_secrets (elasticsearch p) = if_set p.http_user ++ (if_set p.http_passwd ++ of_tls p.tls)
output_secrets (forward p) = if_set p.username ++ (if_set p.password ++ of_tls p.tls)
output_secrets (http p) = if_set p.http_user ++ (if_set p.http_passwd ++ of_tls p.tls)
output_secrets (loki p) =
    if_set p.http_user ++ (if_set p.http_passwd ++ (if_set p.tenant_id ++ of_tls p.tls))
output_secrets (syslog p) = of_tls p.tls
output_secrets (tcp p) = of_tls p.tls
output_secrets _ = []

module _ (sl : SecretLoader) {A : Type 0} (kvs : Kvs) where
  then_secret :
      (key : String) (o : Option Secret) (ss : List Secret) (f : Kvs → Result A)
      → ((k : Kvs) → forget (f k) ≡ load_all sl ss)
      → forget (insert_secret sl key o kvs >>= f) ≡ load_all sl (if_set o ++ ss)
  unfolding insert_secret load_all if_set
  then_secret key none ss f h = h kvs
  then_secret key (some s) ss f h = loaded (load_secret sl s)
    where
      loaded :
          (r : Result String)
          → forget (r >>= (λ v. ok (insert key v kvs)) >>= f) ≡ (r >>= λ v. load_all sl ss)
      loaded (ok v) = h (insert key v kvs)
      loaded (err e) = refl

nothing_left : (sl : SecretLoader) → ok tt ≡ load_all sl []
unfolding load_all
nothing_left sl = refl

tls_secrets :
    (sl : SecretLoader) (t : Tls) → forget (Tls.params sl t) ≡ load_all sl (if_set t.key_password)
unfolding Tls.params
tls_secrets sl t =
    then_secret sl _ "tls.key_passwd" t.key_password [] _ (λ k. nothing_left sl)
    ∙ ap (load_all sl) (append-nil (if_set t.key_password))

module _ (sl : SecretLoader) {A : Type 0} (kvs : Kvs) (f : Kvs → Result A)
    (h : (k : Kvs) → forget (f k) ≡ ok tt) where
  merged : (r : Result Kvs) → forget (r >>= (λ tls. ok (merge tls kvs)) >>= f) ≡ forget r
  merged (ok tls) = h (merge tls kvs)
  merged (err e) = refl

  then_tls : (o : Option Tls) → forget (merge_tls sl o kvs >>= f) ≡ load_all sl (of_tls o)
  unfolding merge_tls of_tls
  then_tls none = h kvs ∙ nothing_left sl
  then_tls (some t) = merged (Tls.params sl t) ∙ tls_secrets sl t

-- The parameters of an output plugin fail exactly where loading its secrets in order does, with the same
-- error.
pub params-eq-load_all :
    (sl : SecretLoader) (p : OutputPlugin) → forget (params sl p) ≡ load_all sl (output_secrets p)
unfolding params output_secrets Elasticsearch.params Forward.params Http.params Loki.params
    Syslog.params Tcp.params File.params Kafka.params Null.params Stdout.params DataDog.params
params-eq-load_all sl (elasticsearch p) =
    then_secret sl _ "HTTP_User" p.http_user _ _
      λ k. then_secret sl k "HTTP_Passwd" p.http_passwd _ _ λ l. then_tls sl _ _ (λ m. refl) p.tls
params-eq-load_all sl (forward p) =
    then_secret sl _ "Username" p.username _ _
      λ k. then_secret sl k "Password" p.password _ _ λ l. then_tls sl _ _ (λ m. refl) p.tls
params-eq-load_all sl (http p) =
    then_secret sl _ "http_User" p.http_user _ _
      λ k. then_secret sl k "http_Passwd" p.http_passwd _ _ λ l. then_tls sl _ _ (λ m. refl) p.tls
params-eq-load_all sl (loki p) = then_secret sl _ "http_user" p.http_user _ _ λ k.
    then_secret sl k "http_passwd" p.http_passwd _ _
      λ l. then_secret sl l "tenant_id" p.tenant_id _ _ λ m. then_tls sl _ _ (λ n. refl) p.tls
params-eq-load_all sl (syslog p) = then_tls sl _ _ (λ k. refl) p.tls
params-eq-load_all sl (tcp p) = then_tls sl _ _ (λ k. refl) p.tls
params-eq-load_all sl (file p) = nothing_left sl
params-eq-load_all sl (kafka p) = nothing_left sl
params-eq-load_all sl (null p) = nothing_left sl
params-eq-load_all sl (stdout p) = nothing_left sl
params-eq-load_all sl (datadog p) = nothing_left sl
