-- ===== src/Clusters/Manifest/Resources.antt =====
-- pkg/cluster/simple_manifest.go: the resources of a manifest. The order of the keys in a map is that of the source.
use Prim.Native.String.{String, [], ◌∷◌, ◌++◌}
use Prim.Native.Char.{Char, code}
use mathlib.Core.List.{[], ◌∷◌}
use karlon.Base.{Bool, true, nat_eq, if◌then◌else◌}
use karlon.Base.Number.{ℤ, pos}
use karlon.Base.Yaml.{Yaml, text, number, flag, items, map_of, items_of, texts}

abbrev pub domain : String
domain = ".default-service.k8s.byo-upg-3.app.dev-pcd.platform9.com"

abbrev pub byo_cluster_api_version : String
byo_cluster_api_version = "infrastructure.cluster.x-k8s.io/v1beta1"

abbrev pub cluster_api_version : String
cluster_api_version = "cluster.x-k8s.io/v1beta1"

abbrev pub control_plane_api_version : String
control_plane_api_version = "controlplane.platform9.io/v1alpha1"

abbrev pub bootstrap_api_version : String
bootstrap_api_version = "bootstrap.cluster.x-k8s.io/v1beta1"

-- a version with the prefix v, if it is not empty
abbrev pub is_v : Char → Bool
is_v c = nat_eq (code c) (code "v")

unfoldable pub with_v : String → String
with_v [] = []
with_v (c ∷ s) = if is_v c then c ∷ s else "v" ∷ (c ∷ s)

abbrev pub named : String → String → Yaml
named name namespace = map_of (("name", text name) ∷ ("namespace", text namespace) ∷ [])

abbrev pub resource : String → String → Yaml → Yaml → Yaml
resource api_version kind metadata spec = map_of (
    ("apiVersion", text api_version)
    ∷ ("kind", text kind)
    ∷ ("metadata", metadata)
    ∷ ("spec", spec)
    ∷ [])

abbrev pub reference : String → String → String → String → Yaml
reference api_version kind name namespace = map_of (
    ("apiVersion", text api_version)
    ∷ ("kind", text kind)
    ∷ ("name", text name)
    ∷ ("namespace", text namespace)
    ∷ [])

abbrev pub short_reference : String → String → String → Yaml
short_reference api_version kind name =
    map_of (("apiVersion", text api_version) ∷ ("kind", text kind) ∷ ("name", text name) ∷ [])

-- `spec.template.spec`
abbrev pub template_spec : Yaml → Yaml
template_spec spec = map_of (("template", map_of (("spec", spec) ∷ [])) ∷ [])

unfoldable pub cluster_resource : String → String → String → Yaml
cluster_resource cluster_name namespace hcp_name =
    resource cluster_api_version "Cluster"
      (map_of (
        ("name", text cluster_name)
        ∷ ("namespace", text namespace)
        ∷ (
          "labels",
          map_of (
              ("cas-capi-version", text "v1.32")
              ∷ ("core-addons", text "enabled")
              ∷ ("metrics-server", text "0.6.4")
              ∷ ("proxy-addons", text "enabled")
              ∷ []),
        )
        ∷ []))
      (map_of (
        (
          "clusterNetwork",
          map_of (
              ("apiServerPort", number (pos 443))
              ∷ ("pods", map_of (("cidrBlocks", items (texts ("10.244.0.0/16" ∷ []))) ∷ []))
              ∷ ("services", map_of (("cidrBlocks", items (texts ("10.96.0.0/16" ∷ []))) ∷ []))
              ∷ []),
        )
        ∷ (
          "controlPlaneRef",
          reference control_plane_api_version "HostedControlPlane" hcp_name namespace,
        )
        ∷ (
          "infrastructureRef",
          reference byo_cluster_api_version "ByoCluster" cluster_name namespace,
        )
        ∷ []))

unfoldable pub byo_cluster : String → String → String → Yaml
byo_cluster cluster_name namespace endpoint_host =
    resource byo_cluster_api_version "ByoCluster" (named cluster_name namespace) (
      map_of (
        ("bundleLookupBaseRegistry", text "quay.io/platform9")
        ∷ (
          "controlPlaneEndpoint",
          map_of (("host", text endpoint_host) ∷ ("port", number (pos 443)) ∷ []),
        )
        ∷ []))

abbrev pub konnectivity : String → Yaml
konnectivity hcp_name = map_of (
    (
      "agent",
      map_of (
          (
            "extraArgs",
            items (
                texts (
                  ("--proxy-server-host=konnectivity-" ++ hcp_name ++ domain)
                  ∷ "--proxy-server-port=443"
                  ∷ [])),
          )
          ∷ ("image", text "registry.k8s.io/kas-network-proxy/proxy-agent")
          ∷ (
            "tolerations",
            items (
                items_of (
                  map_of (("key", text "CriticalAddonsOnly") ∷ ("operator", text "Exists") ∷ [])
                  ∷ [])),
          )
          ∷ ("version", text "v0.0.32")
          ∷ []),
    )
    ∷ (
      "server",
      map_of (
          ("image", text "registry.k8s.io/kas-network-proxy/proxy-server")
          ∷ ("port", number (pos 8132))
          ∷ ("version", text "v0.0.32")
          ∷ []),
    )
    ∷ [])

abbrev pub volume_mount : String → String → Yaml
volume_mount path name =
    map_of (("mountPath", text path) ∷ ("name", text name) ∷ ("readOnly", flag true) ∷ [])

abbrev pub api_server : Yaml
api_server = map_of (
    (
      "extraArgs",
      items (
          texts (
            "--cloud-provider=external"
            ∷ "--cors-allowed-origins=https://byo-upg-3-regionone.app.dev-pcd.platform9.com,https://byo-upg-3-regionone.app.dev-pcd.platform9.com/,https://byo-upg-3-regionone.app.dev-pcd.platform9.com,https://byo-upg-3-regionone.app.dev-pcd.platform9.com/"
            ∷ "--advertise-address=10.96.0.40"
            ∷ "--authentication-config=/etc/kubernetes/oidc-auth/oidc.yaml" ∷ [])),
    )
    ∷ (
      "extraVolumeMounts",
      items (
          items_of (
            volume_mount "/etc/ssl/host-certs" "etc-ssl-certs-from-host"
            ∷ volume_mount "/etc/kubernetes/oidc-auth" "oidc-auth"
            ∷ [])),
    )
    ∷ ("resources", map_of [])
    ∷ [])

abbrev pub config_map_volume : String → Yaml
config_map_volume config_map =
    map_of
      (("configMap", map_of (("name", text config_map) ∷ [])) ∷ ("name", text "oidc-auth") ∷ [])

unfoldable pub hosted_control_plane : String → String → String → String → String → Yaml
hosted_control_plane hcp_name namespace oidc_config_map oidc_config_map_cp k8s_version =
    resource control_plane_api_version "HostedControlPlane" (named hcp_name namespace) (
      map_of (
        ("addons", map_of (("coreDNS", map_of []) ∷ ("konnectivity", konnectivity hcp_name) ∷ []))
        ∷ ("apiServer", api_server)
        ∷ (
          "controllerManager",
          map_of (
              ("extraArgs", items (texts ("--cloud-provider=external" ∷ [])))
              ∷ ("resources", map_of [])
              ∷ []),
        )
        ∷ (
          "extraCertSANs",
          items (texts (("konnectivity-" ++ hcp_name ++ domain) ∷ (hcp_name ++ domain) ∷ [])),
        )
        ∷ (
          "extraVolumes",
          items (
              items_of
                (config_map_volume oidc_config_map ∷ config_map_volume oidc_config_map_cp ∷ [])),
        )
        ∷ ("hcpClass", text "default")
        ∷ ("hostname", text (hcp_name ++ domain))
        ∷ (
          "kubelet",
          map_of (
              ("cgroupfs", text "systemd")
              ∷ (
                "preferredAddressTypes",
                items (texts ("InternalIP" ∷ "ExternalIP" ∷ "Hostname" ∷ [])),
              )
              ∷ []),
        )
        ∷ ("scheduler", map_of (("resources", map_of []) ∷ []))
        ∷ ("version", text k8s_version)
        ∷ []))

unfoldable pub byo_machine_template : String → String → Yaml
byo_machine_template cluster_name namespace =
    resource byo_cluster_api_version "ByoMachineTemplate" (named cluster_name namespace) (
      template_spec (
        map_of (
          (
            "installerRef",
            reference byo_cluster_api_version "K8sInstallerConfigTemplate" cluster_name namespace,
          )
          ∷ [])))

unfoldable pub kubeadm_config_template : String → String → Yaml
kubeadm_config_template cluster_name namespace =
    resource bootstrap_api_version "KubeadmConfigTemplate" (named cluster_name namespace)
      (template_spec (map_of []))

unfoldable pub machine_deployment : String → String → ℤ → String → Yaml
machine_deployment cluster_name namespace replicas md_version =
    resource cluster_api_version "MachineDeployment" (named cluster_name namespace) (
      map_of (
        ("clusterName", text cluster_name)
        ∷ ("replicas", number replicas)
        ∷ (
          "template",
          map_of (
              (
                "spec",
                map_of (
                    (
                      "bootstrap",
                      map_of (
                          (
                            "configRef",
                            short_reference bootstrap_api_version "KubeadmConfigTemplate"
                                cluster_name,
                          )
                          ∷ []),
                    )
                    ∷ ("clusterName", text cluster_name)
                    ∷ (
                      "infrastructureRef",
                      short_reference byo_cluster_api_version "ByoMachineTemplate" cluster_name,
                    )
                    ∷ ("version", text md_version)
                    ∷ []),
              )
              ∷ []),
        )
        ∷ []))

unfoldable pub installer_config_template : String → String → Yaml
installer_config_template cluster_name namespace =
    resource byo_cluster_api_version "K8sInstallerConfigTemplate" (named cluster_name namespace) (
      template_spec
        (map_of (("bundleRepo", text "quay.io/platform9") ∷ ("bundleType", text "k8s") ∷ [])))
