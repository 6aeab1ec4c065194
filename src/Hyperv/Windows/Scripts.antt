-- ===== src/Hyperv/Windows/Scripts.antt =====
-- The scripts that `windowsEngine` of pkg/hyperv/engine.go has PowerShell run, as texts. The
-- arguments stand in them as they are, without any quoting.
pub mod Creation
use crybaby.Base.{ℕ, ℤ, String, Bool, if◌then◌else◌}
use crybaby.Base.Decimal.{show, show_int}
use crybaby.Base.Text.{◌<>◌}

unfoldable pub start_script : String → String
start_script vm_id = "Start-VM -Id \"" <> vm_id <> "\""

unfoldable pub stop_script : String → Bool → String
stop_script vm_id force =
    "Stop-VM -Id \"" <> vm_id <> "\" " <> (if force then "-TurnOff" else "-ShutDown")

unfoldable pub restart_script : String → String
restart_script vm_id = "Restart-VM -Id \"" <> vm_id <> "\" -Force"

unfoldable pub removal : String → String
removal vm_id =
    "\n" <> "\t\t$vm = Get-VM -Id \"" <> vm_id <> "\"\n"
    <> "\t\t$vhdPath = (Get-VMHardDiskDrive -VM $vm).Path\n"
    <> "\t\tStop-VM -VM $vm -TurnOff -ErrorAction SilentlyContinue\n"
    <> "\t\tRemove-VM -VM $vm -Force\n" <> "\t"

unfoldable pub disk_removal : String
disk_removal =
    "\n" <> "\t\tif ($vhdPath -and (Test-Path $vhdPath)) { Remove-Item -Path $vhdPath -Force }\n"
    <> "\t\t"

unfoldable pub delete_script : String → Bool → String
delete_script vm_id delete_disk =
    if delete_disk then removal vm_id <> disk_removal else removal vm_id

unfoldable pub switches_script : String
switches_script = "Get-VMSwitch | Select-Object -ExpandProperty Name | ConvertTo-Json -Compress"

unfoldable pub ensure_switch_script : String → String
ensure_switch_script switch_name =
    "\n" <> "\t\t$ext = Get-VMSwitch -Name \"" <> switch_name
    <> "\" -ErrorAction SilentlyContinue\n" <> "\t\tif (-not $ext) {\n"
    <> "\t\t\t$eth = Get-NetAdapter -Physical -ErrorAction SilentlyContinue | Where-Object { $_.Status -eq \"Up\" } | Select-Object -First 1\n"
    <> "\t\t\tif ($eth) {\n" <> "\t\t\t\tNew-VMSwitch -Name \"" <> switch_name
    <> "\" -NetAdapterName $eth.Name -AllowManagementOS $true -ErrorAction SilentlyContinue | Out-Null\n"
    <> "\t\t\t}\n" <> "\t\t}\n" <> "\t"

unfoldable pub checkpoint_script : String → String → String
checkpoint_script vm_id name =
    "\n" <> "\t\t$snap = Checkpoint-VM -Id \"" <> vm_id <> "\" -SnapshotName \"" <> name
    <> "\" -Passthru | Select-Object Id, Name, CreationTime | ConvertTo-Json -Compress\n"
    <> "\t\t$snap\n" <> "\t"

unfoldable pub checkpoints_script : String → String
checkpoints_script vm_id =
    "\n" <> "\t\tGet-VMSnapshot -VMId \"" <> vm_id
    <> "\" | Select-Object Id, Name, CreationTime | ConvertTo-Json -Compress\n" <> "\t"

unfoldable pub restore_script : String → String → String
restore_script vm_id name =
    "\n" <> "\t\tRestore-VMSnapshot -VMId \"" <> vm_id <> "\" -Name \"" <> name
    <> "\" -Confirm:$false\n" <> "\t"

unfoldable pub delete_checkpoint_script : String → String → String
delete_checkpoint_script vm_id name =
    "\n" <> "\t\tRemove-VMSnapshot -VMId \"" <> vm_id <> "\" -Name \"" <> name
    <> "\" -Confirm:$false\n" <> "\t"

unfoldable pub resize_script : String → ℤ → ℕ → String
resize_script vm_id cpu_count memory_mb =
    "\n"
    <> "\t\t$vm = Get-VM -Id \""
    <> vm_id
    <> "\"\n"
    <> "\t\tif (!$vm) { throw \"VM not found\" }\n"
    <> "\t\t$wasRunning = ($vm.State -eq 'Running')\n"
    <> "\t\tif ($wasRunning) {\n"
    <> "\t\t\tStop-VM -VM $vm -Force\n"
    <> "\t\t}\n"
    <> "\t\tSet-VMProcessor -VM $vm -Count "
    <> show_int cpu_count
    <> "\n"
    <> "\t\tSet-VMMemory -VM $vm -StartupBytes "
    <> show memory_mb
    <> "MB\n"
    <> "\t\tif ($wasRunning) {\n"
    <> "\t\t\tStart-VM -VM $vm\n"
    <> "\t\t}\n"
    <> "\t"

unfoldable pub expand_script : String → ℕ → String
expand_script vm_id new_size_gb =
    "\n"
    <> "\t\t$vm = Get-VM -Id \""
    <> vm_id
    <> "\"\n"
    <> "\t\tif (!$vm) { throw \"VM not found\" }\n"
    <> "\t\t$vhd = Get-VMHardDiskDrive -VM $vm | Select-Object -First 1\n"
    <> "\t\tif (!$vhd -or !$vhd.Path) { throw \"No hard disk attached to VM\" }\n"
    <> "\t\tResize-VHD -Path $vhd.Path -SizeBytes "
    <> show new_size_gb
    <> "GB\n"
    <> "\t"
