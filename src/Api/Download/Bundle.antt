-- ===== src/Api/Download/Bundle.antt =====
-- The file that `download_client_deployment` of src/g_one/api.py answers with: what is packed into it, its name
-- and its headers.
use Prim.Native.String.{◌++◌, slice}
use project_g_one.Prelude.{ℕ, String, List, [], ◌∷◌, map}
use project_g_one.Text.Lines.{str}
use project_g_one.Auth.Json.{Json, integer, string, array, object, Items, nil, cons, end, field}
use project_g_one.Api.Download.{ServerEntry, Manifest}

-- A member of the archive: the published client, JSON with an indentation of 2, or a text.
pub data Content : Type 0 where
  client : Content
  indented : Json → Content
  plain : String → Content

pub record Response : Type 0 where
  pub archive : List (String × Content)
  pub headers : List (String × String)

items : List Json → Items
items [] = nil
items (v ∷ vs) = cons v (items vs)

unfoldable pub entry_json : ServerEntry → Json
unfolding items
entry_json e = object (
    field "name" (string e.name)
      (field "host" (string e.host) (field "shares" (array (items (map string e.shares))) end)))

-- `isoformat` is that of a time.
unfoldable pub manifest_json : (ℕ → String) → Manifest → Json
unfolding entry_json items
manifest_json isoformat m = object (
    field "schema_version" (integer 1) (
      field "server_url" (string m.server_url) (
        field "tenant_id" (string m.tenant_id) (
          field "profile"
            (object (
              field "id" (string m.profile_id)
                (field "name" (string m.profile_name) (field "revision" (integer m.revision) end))))
            (field "target_subject" (string m.target_subject) (
              field "enrollment_code" (string m.enrollment_code) (
                field "expires_at" (string (isoformat m.expires_at)) (
                  field "vpn"
                    (object (
                      field "network_id" (string m.network_id)
                        (field "allowed_ips" (string m.allowed_ips) end)))
                    (field "file_servers" (array (items (map entry_json m.file_servers)))
                      end)))))))))

unfoldable pub client_settings : Manifest → Json
client_settings m = object (
    field "serverUrl" (string m.server_url) (
      field "workspace" (string m.tenant_id)
        (field "enrollmentCode" (string m.enrollment_code) end)))

unfoldable pub install_script : String
install_script =
    "$ErrorActionPreference = 'Stop'\n"
    ++ ("if (-not ([Security.Principal.WindowsPrincipal] [Security.Principal.WindowsIdentity]::GetCurrent()).IsInRole([Security.Principal.WindowsBuiltInRole]::Administrator)) {\n"
        ++ ("    $arguments = '-NoProfile -ExecutionPolicy Bypass -File \"' + $PSCommandPath + '\"'\n"
            ++ ("    Start-Process powershell.exe -Verb RunAs -Wait -ArgumentList $arguments\n"
                ++ ("    exit $LASTEXITCODE\n"
                    ++ ("}\n"
                        ++ ("$root = Split-Path -Parent $MyInvocation.MyCommand.Path\n"
                            ++ ("$msi = Join-Path $root 'GOne.Client-x64.msi'\n"
                                ++ ("$settings = Join-Path $root 'clientsettings.json'\n"
                                    ++ ("$process = Start-Process msiexec.exe -Wait -PassThru -ArgumentList @('/i', ('\"' + $msi + '\"'))\n"
                                        ++ ("if ($process.ExitCode -notin @(0, 1641, 3010)) { throw \"G-One MSI installation failed (exit code $($process.ExitCode)).\" }\n"
                                            ++ ("$target = Join-Path $env:ProgramData 'G-One'\n"
                                                ++ ("New-Item -ItemType Directory -Force -Path $target | Out-Null\n"
                                                    ++ ("Copy-Item -Force $settings (Join-Path $target 'clientsettings.json')\n"
                                                        ++ ("Write-Host 'G-One installation and deployment settings are complete.'\n"))))))))))))))

unfoldable pub install_command : String
install_command =
    "@echo off\r\npowershell.exe -NoProfile -ExecutionPolicy Bypass -File \"%~dp0Install-GOne.ps1\"\r\npause\r\n"

-- `profile.id[:8]` counts characters, which an identifier made by the program has of one byte each.
unfoldable pub filename : Manifest → String
unfolding str
filename m = "GOne-" ++ (slice m.profile_id 0 8 ++ ("-r" ++ (str m.revision ++ ".zip")))

unfoldable pub response : (ℕ → String) → Manifest → Response
unfolding manifest_json client_settings install_script install_command filename
response isoformat m = record {
  archive =
      ("GOne.Client-x64.msi", client)
      ∷ ("deployment.json", indented (manifest_json isoformat m))
      ∷ ("clientsettings.json", indented (client_settings m))
      ∷ ("Install-GOne.ps1", plain install_script)
      ∷ ("Install-GOne.cmd", plain install_command)
      ∷ [];
  headers =
      ("Content-Disposition", "attachment; filename=\"" ++ (filename m ++ "\""))
      ∷ ("Cache-Control", "no-store")
      ∷ ("X-Content-Type-Options", "nosniff")
      ∷ [];
}
