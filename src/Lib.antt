-- ===== src/Lib.antt =====
-- karlon manages the life cycle of Kubernetes clusters through ArgoCD. Controllers watch custom
-- resources in a management cluster (Cluster, ClusterRegistration, CallHomeConfig, AppProfile),
-- call ArgoCD, git and the clusters' API servers, and write the state back to the resources; the
-- command line works on bundles, profiles, cluster templates, clusters and aliases of
-- repositories; cluster specifications (gen1) are config maps.
--
-- How the code is modelled. Every call that leaves the program is a constructor of `Call`
-- (Services.antt), with its request, and has an answer of type `Answer`. An `Api` is any set of
-- services: a world of its own and an answer to each call in it. A function that makes calls is
-- an `Exec` (Services/Exec.antt): from the world and the calls made so far to a result, the new
-- world and the calls, the latest first; it goes on with a value or stops the function with its
-- result, as an early return does. So the theorems say "whatever the services answer": they hold
-- for every `Api`, and the order of the calls is in the list. Errors are values that keep what
-- the code asks of them: whether Kubernetes says "not found", and the gRPC code of ArgoCD's
-- answers (Base/Result.antt).
--
-- Files:
-- Base.antt and Base/: Go's strings, maps, sets, integers in decimal and errors, and the lemmas
--   on them. A map is an association list, a set a slice without repetition; Go leaves the order
--   in which they are iterated open, and no theorem depends on it.
-- Objects.antt: pkg/api/v1 (the custom resources), and the fields used of the objects of
--   Kubernetes and ArgoCD.
-- Services.antt, Services/: the calls, the services, and the monad of the code;
--   Services/Quiet.antt is a concrete service for the examples.
-- Controllers/Registration.antt: pkg/controllers/clusterregistration_controller.go (Reconcile,
--   reconcileDelete, updateState); what it promises is in Registration/Finalizer.antt and
--   Registration/States.antt.
-- Controllers/CallHome.antt: pkg/controllers/callhomeconfig_controller.go; CallHome/States.antt
--   and CallHome/Token.antt.
-- ClusterSpec.antt, ClusterSpec/Valid.antt and ClusterSpec/Api.antt: pkg/clusterspec
--   (FromConfigMap, ToConfigMap, utils.go, Get, Create, Update, Delete); the proofs are in
--   ClusterSpec/Codec.antt, Updates.antt and Create.antt.
-- AppProfile.antt and AppProfile/Clusters.antt, Profiles.antt and Apps.antt:
--   pkg/appprofile/reconcile.go, one file for each of its loops; the proofs are in
--   Deployed.antt, Spread.antt, Annotations.antt, Statuses.antt and Settled.antt.
-- Controllers/Apps.antt: pkg/controllers/application_controller.go, applicationset_controller.go
--   and profile_controller.go.
-- Bundles.antt, Bundles/Names.antt and Bundles/Api.antt: pkg/bundle and the keys of pkg/common;
--   Bundles/NameLaws.antt says what a valid name is, and Bundles/Kinds.antt that a stored bundle
--   is of one kind.
-- Profiles.antt, Profiles/Overrides.antt, InGit.antt, Api.antt and Writes.antt: pkg/profile; the
--   proofs are in Profiles/RoundTrip.antt, OverrideMaps.antt (the overrides as a map),
--   Repeat.antt and Saves.antt.
-- Git.antt: pkg/argocd/repo.go and pkg/gitutils/gitutils.go; what is committed is in
--   Git/Commits.antt.
-- Git/BundleApps.antt and Git/Embedded.antt: pkg/gitutils/bundles.go and CopyManifests of
--   manifests.go; which files are written is in Git/BundleFiles.antt and Git/StoredBundles.antt.
-- BaseCluster.antt: pkg/basecluster/validate.go and errors.go; BaseCluster/Validity.antt says
--   what a valid template is.
-- BaseCluster/Prepare.antt: pkg/basecluster/prepare.go and data.go; proofs in
--   BaseCluster/Prepared.antt and Again.antt.
-- Repos.antt and Repos/Commands.antt: pkg/gitrepo/gitrepo.go, and register.go and unregister.go
--   of pkg/cmd/gitrepo; proofs in Repos/Aliases.antt.
-- Repos/CommitPush.antt: pkg/gitrepo/commit_push.go; proofs in Repos/Pushed.antt.
-- App.antt: pkg/app/app.go; proofs in App/Created.antt.
-- Clusters/Manifest.antt and Manifest/Resources.antt: pkg/cluster/simple_manifest.go, over the
--   values of Base/Yaml.antt; proofs in Manifest/Laws.antt.
-- Cli.antt, Cli/Profiles.antt, Cli/Clusters.antt and Cli/Tables.antt: the commands under
--   pkg/cmd/app, basecluster, bundle, clusterspec, profile and cluster, and
--   pkg/appprofile/appprofile.go; proofs in Cli/Columns.antt, and Cli/Effects.antt proves what
--   they do together with the packages.
-- Installer.antt, Installer/Capi.antt, Tools.antt, Command.antt and Verify.antt: pkg/install,
--   pkg/cmd/install/install.go and pkg/cmd/verify/verify.go; proofs in Installer/Calls.antt,
--   Prompts.antt, Requisites.antt and Checks.antt.
-- Setup.antt, Setup/Examples.antt and Setup/Command.antt: pkg/cmd/initialize/init.go; proofs in
--   Setup/Half.antt and Setup/Ready.antt.
-- Webhook.antt: pkg/webhook/rewrite.go and webhook.go; proofs in Webhook/Answers.antt.
-- Clusters.antt, Clusters/RootApp.antt, ClusterApp.antt, Create.antt, Deploy.antt and
--   Overrides.antt: pkg/cluster/root_app.go, cluster_app.go, create.go, git.go, util.go and
--   delete.go, and pkg/gitutils/manifests.go; proofs in Clusters/Applications.antt,
--   Directory.antt and Paths.antt.
-- Clusters/Queries.antt, ProfileApps.antt, Update.antt and External.antt: pkg/cluster/types.go,
--   get.go, list.go, profile_app.go, ngupdate.go, set_appprofiles.go, update.go, external.go and
--   Delete of delete.go; proofs in Clusters/Managed.antt.
-- Controllers/Cluster.antt with Cluster/Status.antt and Cluster/Deletion.antt:
--   pkg/controllers/cluster_controller.go, which composes the functions of the three parts
--   above; proofs in Cluster/States.antt, Progress.antt, Stuck.antt, Settling.antt, which has an
--   ArgoCD that holds one cluster app, and Termination.antt, which has one with a delay as its
--   bound.
--
-- Parameters. The names of the AWS regions (ClusterSpec/Valid.antt) are constants of the AWS
-- library. The decoder of the elements of a list generator (AppProfile/Apps.antt) is Go's JSON;
-- the theorem that needs it assumes that it reads back the elements that the code writes, which
-- it does for names without quotes and backslashes. Go's `int` has 64 bits. `Libraries`
-- (Services.antt) has the constant of ArgoCD for its finalizer, yaml.Marshal, and text/template
-- on a text without data. The JSON of the aliases, the YAML encoder of a prepared template, and
-- the decoders and encoders of the webhook are parameters of the functions that use them; so are
-- wait.PollImmediate and the YAML decoder of the installation (Setup.antt). Every loop is over a
-- list; the only fuel is that of the decimal digits in itoa (Base/Number.antt), one more than
-- the number, which the round trip in Number/RoundTrip.antt shows to be enough.
--
-- Not modelled: logging and what is printed, the wording of the errors of strconv, the
-- declaration of flags, the layout of the tables, and the set-up of the controller runtime. A
-- panic, of a write to a nil map or a nil pointer, is an error here, since both end the command.
pub mod Base
pub mod Objects
pub mod Services
pub mod Webhook
pub mod App
pub mod Installer
pub mod Cli
pub mod Setup
pub mod ClusterSpec
pub mod AppProfile
pub mod Git
pub mod BaseCluster
pub mod Bundles
pub mod Clusters
pub mod Profiles
pub mod Repos
pub mod Controllers
